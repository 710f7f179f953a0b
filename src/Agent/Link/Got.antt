-- ===== src/Agent/Link/Got.antt =====
-- A POST that returned an answer got it from the network.
use unify_em.Base.{
  ℕ, String, ◌≡◌, refl, sym, ap, ◌∙◌, Bool, true, false, Option, none, some, some_inj,
  if◌then◌else◌, Option-cases, inl, inr,
}
use unify_em.Api.Sessions.{AgentSyncRequest}
use unify_em.Agent.Try.{Try, continue_with, ◌>>=◌, ◌>>◌, pure}
use unify_em.Agent.Address.{Urls, build_url}
use unify_em.Agent.Link.{
  Net, Session, SyncAnswer, Wire, no_response, broken, answered, body_of, count_call, post_as,
  unauthorized_of, clear_token, get_token, post_request,
}

module _ {A : Type 0} where
  -- The network answered a call with this body.
  abbrev pub Got : (ℕ → String → String → Wire A) → A → Type 0
  Got send a =
      (n : ℕ) × (url : String) × (token : String) × (status : ℕ) × (send n url token
        ≡ answered status (some a))

  after_clear :
      (b : Bool) (k : Try Session (Option A)) (s : Session) (o : Option (Option A))
      → ((s' : Session) → (k s').0 ≡ o)
      → (((if b then clear_token else pure tt) >> k) s).0 ≡ o
  after_clear true k s o h = h (record s { jwt = ""; retry_required = true })
  after_clear false k s o h = h s

  bodies : Wire A → Option (Option A)
  bodies no_response = none
  bodies (broken status) = none
  bodies (answered status body) = some body

  body_of_lem : (w : Wire A) (s : Session) → (body_of w s).0 ≡ bodies w
  unfolding body_of bodies
  body_of_lem no_response s = refl
  body_of_lem (broken status) s = refl
  body_of_lem (answered status body) s = refl

  wire-Got :
      (send : ℕ → String → String → Wire A) (a : A) (n : ℕ) (url token : String) (w : Wire A)
      → send n url token ≡ w
      → bodies w ≡ some (some a)
      → Got send a
  unfolding bodies
  wire-Got send a n url token no_response e h = cc
  wire-Got send a n url token (broken status) e h = cc
  wire-Got send a n url token (answered status body) e h =
      (n, url, token, status, e ∙ ap (answered status) (some_inj h))

  token-Got :
      (send : ℕ → String → String → Wire A) (a : A) (url : String) (o : Option String × Session)
      → (continue_with
          (λ t. count_call (λ n. send n url t) >>= λ w.
            (if unauthorized_of w then clear_token else pure tt) >> body_of w)
          o).0
        ≡ some (some a)
      → Got send a
  unfolding count_call
  token-Got send a url (none, s) h = cc
  token-Got send a url (some t, s) h = wire-Got send a s.calls url t (send s.calls url t) refl (
      sym (
        after_clear (unauthorized_of (send s.calls url t)) (body_of (send s.calls url t)) _
          (bodies (send s.calls url t)) (λ s'. body_of_lem (send s.calls url t) s'))
      ∙ h)

  post-Got :
      (U : Urls) (token : Try Session String) (server path : String)
      (send : ℕ → String → String → Wire A) (a : A) (s : Session)
      → (post_as U token server path send s).0 ≡ some (some a)
      → Got send a
  unfolding post_as
  post-Got U token server path send a s h = elim (Option-cases (build_url U server path)) [
    | inl bad ↦ cc (let g : none ≡ some (some a) = rw (bad, post_as) at h in g)
    | inr (url, good) ↦ token-Got send a url (token s) (rw (good, post_as) at h)
  ]

-- A round's POST that returned an answer got it from the network, for the request it was given.
pub post_request-Got :
    (net : Net) (server : String) (r : AgentSyncRequest) (a : SyncAnswer) (s : Session)
    → (post_request net server r s).0 ≡ some (some a)
    → Got (λ n url token. net.sync n url token r) a
unfolding post_request
post_request-Got net server r a s h =
    post-Got net.urls (get_token net) server "/api/v1/sync" (λ n url token. net.sync n url token r)
      a s h
