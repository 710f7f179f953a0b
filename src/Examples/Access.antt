-- ===== src/Examples/Access.antt =====
-- Callers of the API.
use unify_em.Base.{String, ◌≡◌, refl, false, some, [], ◌∷◌, ◌==◌, ◌↔◌}
use unify_em.Data.Token.{validate_token}
use unify_em.Api.Auth.{AuthDetails, granted, bearer_token, authenticate}
use unify_em.Api.Auth.Granted.{AuthorizedBy, authenticate_iff}
use unify_em.Examples.KnownTokens.{jwt, start}

abbrev agent : AuthDetails
agent = record { id = "A-1"; role = 2 }

authenticate_iff_example :
    (authenticate jwt (λ now token. false) "127.0.0.1" start (2 ∷ 5 ∷ []) "10.0.0.7" "Bearer a"
      ≡ granted agent)
    ↔ (("10.0.0.7" == "" ≡ false)
        × (token : String) × (bearer_token "Bearer a" ≡ some token)
        × AuthorizedBy jwt
            (λ now token. false)
            "127.0.0.1"
            start
            (2 ∷ 5 ∷ [])
            "10.0.0.7"
            agent
            token)
authenticate_iff_example =
    authenticate_iff jwt (λ now token. false) "127.0.0.1" start (2 ∷ 5 ∷ []) "10.0.0.7" "Bearer a"
      agent

-- The agent is granted access, and no address is authorized by an empty setting.
is_granted :
    authenticate jwt (λ now token. false) "127.0.0.1" start (2 ∷ 5 ∷ []) "10.0.0.7" "Bearer a"
    ≡ granted agent
unfolding authenticate bearer_token validate_token
is_granted = refl
