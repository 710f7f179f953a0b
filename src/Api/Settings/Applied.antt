-- ===== src/Api/Settings/Applied.antt =====
-- What putConfigTarget changes.
use unify_em.Base.{
  String, ◌≡◌, refl, true, Option, none, some, [], ◌∷◌, ◌⊎◌, inl, inr, Dict, lookup, Outcome, ok,
  Bool-cases, Option-cases, All, has_key, sym, some_inj, ◌==◌, eq_iff,
}
use unify_em.Bolt.{DistinctKeys}
use unify_em.Config.Params.{Params, exists, element_of, set_string_map, get}
use unify_em.Config.Params.Admitted.{admitted}
use unify_em.Config.Params.Saved.{untouched, loaded}
use unify_em.Api.Http.{HttpBody, unreadable, not_json, json, JResponse, with_body}
use unify_em.Api.Settings.{
  Sets, target_set, with_target, first_absent, updated_set, put_parameters, put_config,
  put_config_target,
}

-- What a key reads as once the parameters are set.
abbrev pub after : Params → Dict String → String → String
after p params key = value_after (lookup key params)
  where
    value_after : Option String → String
    value_after none = (get key p).0
    value_after (some v) = admitted (element_of (lookup key p)) v

-- A Go map has each key once.
abbrev pub IsMap : HttpBody (Dict String) → Type 0
IsMap (json m) = DistinctKeys m
IsMap _ = Unit

-- The parameters that were set, each one of the target's own: `new` is the target's set afterwards, and
-- no other set is changed.
pub record Applied (target : String) (body : HttpBody (Dict String)) (s : Sets)
    (out : Outcome JResponse × Sets) : Type 0 where
  pub parameters : Dict String
  pub old : Params
  pub new : Params
  pub response : JResponse
  pub given : body ≡ json parameters
  pub replied : out.0 ≡ ok response
  pub is_ok : response.http_code ≡ 200
  pub now_holds :
      ((target ≡ "agents") × (old ≡ s.agent_set) × (out.1 ≡ record s { agent_set = new }))
      ⊎ ((target ≡ "server") × (old ≡ s.server_set) × (out.1 ≡ record s { server_set = new }))
  pub all_exist : All (λ p. has_key p.0 old ≡ true) parameters
  pub reads : (key : String) → (get key new).0 ≡ after old parameters key

pub record Refused (s : Sets) (out : Outcome JResponse × Sets) : Type 0 where
  pub response : JResponse
  pub returned : out ≡ (ok response, s)
  pub not_ok : response.http_code ≡ 400

All-there :
    (p : Params) (params : Dict String)
    → first_absent p params ≡ none
    → All (λ q. has_key q.0 p ≡ true) params
unfolding first_absent exists
All-there p [] h = tt
All-there p ((key, v) ∷ rest) h = elim (Bool-cases (has_key key p)) [
  | inl here ↦ (here, All-there p rest (rw here at h))
  | inr gone ↦ cc (let g : some key ≡ none = rw gone at h in g)
]

set_after :
    (p : Params) (params : Dict String)
    → DistinctKeys params
    → (key : String) → (get key (set_string_map params p)).0 ≡ after p params key
set_after p params d key = elim (Option-cases (lookup key params)) [
  | inl kept ↦ rw kept (untouched key params p kept)
  | inr (v, given) ↦ rw given (loaded key params p v d given)
]

-- The set that the name selects, and where it is put back.
put_back :
    (target : String) (s : Sets) (p new : Params)
    → target_set target s ≡ some p
    → ((target ≡ "agents")
        × (p ≡ s.agent_set)
        × (with_target target new s ≡ record s { agent_set = new }))
      ⊎ ((target ≡ "server")
          × (p ≡ s.server_set)
          × (with_target target new s ≡ record s { server_set = new }))
put_back target s p new is = elim (Bool-cases (target == "agents")) [
  | inl agents ↦ inl (
    (eq_iff target "agents").0 agents,
    sym (some_inj (let g : some s.agent_set ≡ some p = rw agents at is in g)),
    rw agents refl,
  )
  | inr other ↦ elim (Bool-cases (target == "server")) [
    | inl server ↦ inr (
      (eq_iff target "server").0 server,
      sym (some_inj (let g : some s.server_set ≡ some p = rw (other, server) at is in g)),
      rw other refl,
    )
    | inr unknown ↦ cc (let g : none ≡ some p = rw (other, unknown) at is in g)
  ]
]

put_all :
    (target : String) (params : Dict String) (p : Params) (s : Sets)
    → DistinctKeys params
    → target_set target s ≡ some p
    → Applied target (json params) s (updated_set target p params (first_absent p params) s)
      ⊎ Refused s (updated_set target p params (first_absent p params) s)
unfolding updated_set
put_all target params p s d is = elim (Option-cases (first_absent p params)) [
  | inl none_absent ↦ rw none_absent (
      inl (record {
        parameters = params;
        old = p;
        new = set_string_map params p;
        response = _;
        given = refl;
        replied = refl;
        is_ok = refl;
        now_holds = put_back target s p (set_string_map params p) is;
        all_exist = All-there p params none_absent;
        reads = set_after p params d;
      }))
  | inr (key, absent) ↦ rw absent (inr (record { response = _; returned = refl; not_ok = refl }))
]

put_body :
    (target : String) (body : HttpBody (Dict String)) (p : Params) (s : Sets)
    → IsMap body
    → target_set target s ≡ some p
    → Applied target body s (put_config target body (some p) s)
      ⊎ Refused s (put_config target body (some p) s)
unfolding put_config put_parameters with_body
put_body target unreadable p s d is = inr (record { response = _; returned = refl; not_ok = refl })
put_body target not_json p s d is = inr (record { response = _; returned = refl; not_ok = refl })
put_body target (json []) p s d is = inr (record { response = _; returned = refl; not_ok = refl })
put_body target (json ((key, v) ∷ rest)) p s d is = put_all target ((key, v) ∷ rest) p s d is

-- A putConfig handler changes something only if its body gives parameters that all exist in the
-- target's set, which is the agents' for "agents" and the server's for "server". Then it replies with
-- 200, each of them reads from that set as its given text, or as its default where that text is empty
-- or a number outside the limits, every other parameter of it reads as before, and the other sets are
-- as they were. Every other call is refused with 400 and changes nothing.
pub put_config-Applied :
    (target : String) (body : HttpBody (Dict String)) (s : Sets)
    → IsMap body
    → Applied target body s (put_config_target target body s)
      ⊎ Refused s (put_config_target target body s)
unfolding put_config_target put_config
put_config-Applied target body s d = elim (Option-cases (target_set target s)) [
  | inl unknown ↦ rw unknown (inr (record { response = _; returned = refl; not_ok = refl }))
  | inr (p, is) ↦ rw is (put_body target body p s d is)
]
