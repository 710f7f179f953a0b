-- ===== src/Config/Defaults/Bounded.antt =====
-- Whatever is stored, the limits stay those of the defaults.
use mathlib.Core.Path.{subst}
use unify_em.Base.{
  ℕ, ◌≤◌, some_inj, String, ◌≡◌, refl, sym, ap, ◌∙◌, Bool, true, false, some, List, [], ◌∷◌, Dict,
  lookup, lookup-insert, ◌==◌, eq_iff, if◌then◌else◌, Bool-cases, inl, inr, contains, contains-All,
  ◌⊎◌, arith, eq_refl,
}
use unify_em.Base.Int.{ℤ, pos, pos_part, ◌≤ℤ◌, atoi, atoi-int_text}
use unify_em.Config.Params.{
  Params, Element, AnyValue, int, any_text, enforce_any, text, element_of, get, set, set_string_map,
  set_constraint,
}
use unify_em.Config.Params.Admitted.{Within, get_in_bounds}
use unify_em.Config.Defaults.{Limit, set_constraints, agent_limits, set_agent_defaults}

-- The key is there with the default and the limits of the call.
pub record IsRuled (l : Limit) (key : String) (p : Params) : Type 0 where
  pub element : Element
  pub there : lookup key p ≡ some element
  pub same_default : element.default_value ≡ any_text l.def
  pub same_min : element.min ≡ l.min
  pub same_max : element.max ≡ l.max

set-IsRuled :
    (l : Limit) (key j : String) (v : AnyValue) (p : Params)
    → IsRuled l key p
    → IsRuled l key (set j v p)
unfolding set
set-IsRuled l key j v p h = elim (Bool-cases (j == key)) [
  | inl same ↦
      (let here : lookup j p ≡ some h.element =
          ap (λ k. lookup k p) ((eq_iff j key).0 same) ∙ h.there in
        record {
          element = record (element_of (lookup j p)) {
            value =
                enforce_any (element_of (lookup j p)).min (element_of (lookup j p)).max v
                  (element_of (lookup j p)).default_value;
          };
          there = lookup-insert j key _ p ∙ rw same refl;
          same_default = ap (λ o. (element_of o).default_value) here ∙ h.same_default;
          same_min = ap (λ o. (element_of o).min) here ∙ h.same_min;
          same_max = ap (λ o. (element_of o).max) here ∙ h.same_max;
        })
  | inr apart ↦ record {
    element = h.element;
    there = lookup-insert j key _ p ∙ rw apart h.there;
    same_default = h.same_default;
    same_min = h.same_min;
    same_max = h.same_max;
  }
]

map-IsRuled :
    (l : Limit) (key : String) (m : Dict String) (p : Params)
    → IsRuled l key p
    → IsRuled l key (set_string_map m p)
unfolding set_string_map
map-IsRuled l key [] p h = h
map-IsRuled l key ((j, s) ∷ m) p h = map-IsRuled l key m _ (set-IsRuled l key j (text s) p h)

constraint-IsRuled :
    (l : Limit) (p : Params) → IsRuled l l.key (set_constraint l.key l.min l.max l.def p)
unfolding set_constraint
constraint-IsRuled l p = record {
  element = record (element_of (lookup l.key p)) {
    default_value = any_text l.def;
    min = l.min;
    max = l.max;
  };
  there = lookup-insert l.key l.key _ p ∙ rw (eq_refl l.key) refl;
  same_default = refl;
  same_min = refl;
  same_max = refl;
}

apart-IsRuled :
    (l k : Limit) (key : String) (p : Params)
    → (k.key == key) ≡ false
    → IsRuled l key p
    → IsRuled l key (set_constraint k.key k.min k.max k.def p)
unfolding set_constraint
apart-IsRuled l k key p apart h = record {
  element = h.element;
  there = lookup-insert k.key key _ p ∙ rw apart h.there;
  same_default = h.same_default;
  same_min = h.same_min;
  same_max = h.same_max;
}

-- No call of the list is for the key.
abbrev is_absent : String → List Limit → Bool
is_absent key [] = true
is_absent key (l ∷ ls) = if l.key == key then false else is_absent key ls

absent-IsRuled :
    (l : Limit) (key : String) (ls : List Limit) (p : Params)
    → is_absent key ls ≡ true
    → IsRuled l key p
    → IsRuled l key (set_constraints ls p)
unfolding set_constraints
absent-IsRuled l key [] p h r = r
absent-IsRuled l key (k ∷ ls) p h r = elim (Bool-cases (k.key == key)) [
  | inl same ↦ cc (let g : false ≡ true = rw same at h in g)
  | inr apart ↦ absent-IsRuled l key ls _ (rw apart at h) (apart-IsRuled l k key p apart r)
]

-- The list has the call, and no later one is for its key.
abbrev Last : Limit → List Limit → Type 0
Last l [] = ⊥
Last l (k ∷ ls) = ((k ≡ l) × (is_absent l.key ls ≡ true)) ⊎ Last l ls

latest-IsRuled :
    (l : Limit) (ls : List Limit) (p : Params) → Last l ls → IsRuled l l.key (set_constraints ls p)
unfolding set_constraints
latest-IsRuled l [] p h = absurd h
latest-IsRuled l (k ∷ ls) p (inl (same, later)) = absent-IsRuled l l.key ls _ later (
    subst (λ k'. IsRuled l l.key (set_constraint k'.key k'.min k'.max k'.def p)) (sym same)
      (constraint-IsRuled l p))
latest-IsRuled l (k ∷ ls) p (inr rest) = latest-IsRuled l ls _ rest

module _ (n : ℤ) where
  abbrev OneDay : Type 0
  OneDay = (pos 5 ≤ℤ n) × (n ≤ℤ pos 86400)

  above_five : (a : ℤ) → a ≡ pos 5 → (a ≡ pos 0) ⊎ (a ≤ℤ n) → pos 5 ≤ℤ n
  above_five a e (inl unset) = absurd (omega (arith, ap pos_part (sym unset ∙ e)))
  above_five a e (inr above) = subst (λ b. b ≤ℤ n) e above

  below_day : (a : ℤ) → a ≡ pos 86400 → (a ≡ pos 0) ⊎ (n ≤ℤ a) → n ≤ℤ pos 86400
  below_day a e (inl unset) = absurd (omega (arith, ap pos_part (sym unset ∙ e)))
  below_day a e (inr below) = subst (λ b. n ≤ℤ b) e below

  -- A value of the set, where the default lies within the limits.
  bounded :
      (l : Limit) (d : ℕ) (q : Params)
      → l.def ≡ int (pos d)
      → l.min ≡ pos 5
      → l.max ≡ pos 86400
      → 5 ≤ d
      → d ≤ 86400
      → IsRuled l l.key q
      → atoi (get l.key q).0 ≡ some n
      → OneDay
  bounded l d q def min max low high r e = elim ((get_in_bounds l.key q r.element r.there).0) [
    | inl standard ↦
        (let same : some n ≡ some (pos d) =
            sym e
            ∙ ap atoi (standard ∙ r.same_default ∙ ap any_text def)
            ∙ atoi-int_text (pos d) (omega arith) in
          subst (λ k. (pos 5 ≤ℤ k) × (k ≤ℤ pos 86400)) (sym (some_inj same))
            (omega arith, omega arith))
    | inr (full, within) ↦
        (let (above, below) = subst (Within r.element) e within in
          (
            above_five r.element.min (r.same_min ∙ min) above,
            below_day r.element.max (r.same_max ∙ max) below,
          ))
  ]

  abbrev interval : String → ℕ → Limit
  interval key d = record { key = key; min = pos 5; max = pos 86400; def = int (pos d) }

  of_interval :
      (key : String) (d : ℕ) (m : Dict String) (p : Params)
      → 5 ≤ d
      → d ≤ 86400
      → Last (interval key d) agent_limits
      → atoi (get key (set_string_map m (set_constraints agent_limits p))).0 ≡ some n
      → OneDay
  of_interval key d m p low high last e =
      bounded (interval key d) d _ refl refl refl low high
        (map-IsRuled (interval key d) key m _ (latest-IsRuled (interval key d) agent_limits p last))
        e

-- The keys of the intervals between rounds and between statuses.
abbrev pub intervals : List String
intervals = "sync_interval" ∷ "sync_pending" ∷ "sync_retry" ∷ "sync_lost" ∷ "status_interval" ∷ []

-- Whatever was stored for the agent and whatever the server sends, an interval between rounds or
-- between statuses that reads as a number is at least five seconds and at most a day.
pub interval_bounded :
    (key : String) (m : Dict String) (p : Params) (n : ℤ)
    → contains key intervals ≡ true
    → atoi (get key (set_string_map m (set_agent_defaults p))).0 ≡ some n
    → (pos 5 ≤ℤ n) × (n ≤ℤ pos 86400)
unfolding set_agent_defaults
interval_bounded key m p n listed =
    contains-All (λ k. atoi (get k (set_string_map m (set_agent_defaults p))).0 ≡ some n → OneDay n)
      intervals key
      (
        of_interval n "sync_interval" 300 m p (omega arith) (omega arith) (inl (refl, refl)),
        (
          of_interval n "sync_pending" 60 m p (omega arith) (omega arith) (inr (inl (refl, refl))),
          (
            of_interval n "sync_retry" 10 m p (omega arith) (omega arith)
                (inr (inr (inl (refl, refl)))),
            (
              of_interval n "sync_lost" 60 m p (omega arith) (omega arith)
                  (inr (inr (inr (inl (refl, refl))))),
              (
                of_interval n "status_interval" 21600 m p (omega arith) (omega arith)
                    (inr (inr (inr (inr (inl (refl, refl)))))),
                tt,
              ),
            ),
          ),
        ),
      )
      listed
