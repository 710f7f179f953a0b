-- ===== src/Examples/Settings.antt =====
-- A retention of at least 7 days that is set, saved and loaded.
use unify_em.Api.Http.{HttpBody, json}
use unify_em.Api.Settings.{Sets, put_config_target}
use unify_em.Api.Settings.Applied.{Applied, Refused, put_config-Applied}
use unify_em.Base.{◌⊎◌, Dict, String, ◌≡◌, refl, [], ◌∷◌}
use unify_em.Base.Int.{pos, ◌≤ℤ◌, int_text, atoi}
use unify_em.Config.Defaults.{set_constraints, set_agent_defaults}
use unify_em.Config.Defaults.Bounded.{interval_bounded}
use unify_em.Config.Params.{
  Element, Params, get, set, set_string_map, set_constraint, enforce, enforce_any, serialize,
  deserialize,
}
use unify_em.Config.Params.Admitted.{Settled, get_in_bounds}
use unify_em.Config.Params.Saved.{deserialize-serialize}

abbrev days : String → Element
days s = record { value = s; default_value = "30"; min = pos 7; max = pos 365 }

abbrev settings : String → Params
settings s = ("event_retention", days s) ∷ []

get_in_bounds_example :
    Settled (days "5") (get "event_retention" (settings "5")).0
    × ((get "event_retention" (get "event_retention" (settings "5")).1).0
        ≡ (get "event_retention" (settings "5")).0)
get_in_bounds_example = get_in_bounds "event_retention" (settings "5") (days "5") refl

deserialize-serialize_example :
    (get "event_retention" (deserialize (serialize (settings "90")) (settings "")).1).0
    ≡ (get "event_retention" (settings "90")).0
deserialize-serialize_example =
    deserialize-serialize "event_retention" (settings "90") (settings "") (days "90") (days "")
      (refl, tt) refl refl refl refl refl

abbrev sets : Sets
sets = record { server_set = settings "90"; agent_set = []; protected_set = [] }

abbrev two_weeks : HttpBody (Dict String)
two_weeks = json (("event_retention", "14") ∷ [])

put_config-Applied_example :
    Applied "server" two_weeks sets (put_config_target "server" two_weeks sets)
    ⊎ Refused sets (put_config_target "server" two_weeks sets)
put_config-Applied_example = put_config-Applied "server" two_weeks sets (refl, tt)

interval_bounded_example : (pos 5 ≤ℤ pos 86400) × (pos 86400 ≤ℤ pos 86400)
unfolding get set_string_map set_agent_defaults set_constraints set_constraint set enforce
    enforce_any int_text atoi
interval_bounded_example =
    interval_bounded "sync_lost" (("sync_lost", "86400") ∷ []) [] (pos 86400) refl refl
