-- ===== src/Schema/Convert.antt =====
-- common/schema/convert.go: the data of an agent's response, as a status.
use Prim.Native.Nat.{Ordering}
use Prim.Native.String.{◌++◌ as ◌+++◌, compare}
use unify_em.Base.{
  String, Bool, true, false, Option, none, some, List, [], ◌∷◌, if◌then◌else◌, Dict, insert, ◌==◌,
  Outcome, ok, err, fault, bad_data,
}
use unify_em.Schema.Values.{
  Json, Items, Fields, null, text, number, boolean, array, object, nil, cons, end, field,
}

abbrev bool_text : Bool → String
bool_text true = "true"
bool_text false = "false"

-- fmt prints a map by its sorted keys.
insert_sorted : String → String → Dict String → Dict String
insert_sorted k v [] = (k, v) ∷ []
insert_sorted k v ((j, w) ∷ rest) =
    let later = insert_sorted k v rest in
    elim (compare k j) [ Ordering.gt ↦ (j, w) ∷ later | _ ↦ (k, v) ∷ (j, w) ∷ rest ]

join_pairs : Dict String → String
join_pairs [] = ""
join_pairs ((k, v) ∷ []) = k +++ (":" +++ v)
join_pairs ((k, v) ∷ (j, w) ∷ rest) = k +++ (":" +++ (v +++ (" " +++ join_pairs ((j, w) ∷ rest))))

join_texts : List String → String
join_texts [] = ""
join_texts (s ∷ []) = s
join_texts (s ∷ t ∷ rest) = s +++ (" " +++ join_texts (t ∷ rest))

-- fmt.Sprintf("%v", value)
mutual
  pub print : Json → String
  print null = "<nil>"
  print (text s) = s
  print (number fixed plain) = plain
  print (boolean b) = bool_text b
  print (array xs) = "[" +++ (join_texts (print_items xs) +++ "]")
  print (object fs) = "map[" +++ (join_pairs (print_fields fs) +++ "]")

  print_items : Items → List String
  print_items nil = []
  print_items (cons x xs) = print x ∷ print_items xs

  print_fields : Fields → Dict String
  print_fields end = []
  print_fields (field k v fs) = insert_sorted k (print v) (print_fields fs)

-- The type switch of both functions; encoding/json decodes no `int`.
flat_text : Json → String
flat_text (number fixed plain) = fixed
flat_text v = print v

-- `range` over the object, with the map that the loop fills.
collect : (Json → String) → Fields → Dict String → Dict String
collect f end acc = acc
collect f (field k v rest) acc = collect f rest (insert k (f v) acc)

unfoldable pub convert_map_string : Json → Outcome (Dict String)
unfolding collect flat_text
convert_map_string (object fs) = ok (collect flat_text fs [])
convert_map_string _ = err (fault bad_data)

pub record AgentStatusData : Type 0 where
  pub details : Dict String
  pub info : List String

find : String → Fields → Option Json
find k end = none
find k (field j v rest) = let later = find k rest in if j == k then some v else later

texts : Items → List String
texts nil = []
texts (cons (text s) rest) = s ∷ texts rest
texts (cons _ rest) = texts rest

details_of : Option Json → Dict String
details_of (some (object fs)) = collect print fs []
details_of _ = []

info_of : Option Json → List String
info_of (some (array xs)) = texts xs
info_of _ = []

status_data : Option Json → Fields → AgentStatusData
status_data none fs = record { details = collect flat_text fs []; info = [] }
status_data (some d) fs = record { details = details_of (some d); info = info_of (find "info" fs) }

unfoldable pub convert_agent_status_data : Json → Outcome AgentStatusData
unfolding status_data find details_of info_of texts collect flat_text
convert_agent_status_data (object fs) = ok (status_data (find "details" fs) fs)
convert_agent_status_data _ = err (fault bad_data)
