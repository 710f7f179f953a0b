-- ===== src/Examples/Stores.antt =====
-- A bucket of users that is written, read and emptied.
use unify_em.Base.{refl, List, [], ◌∷◌, some}
use unify_em.Schema.{UserMeta}
use unify_em.Bolt.Listed.{listed}
use unify_em.Db.Bucket.{Db, Stored, user_meta_bucket}
use unify_em.Db.Bucket.Store.{Op, put, fetch, remove, run_calls, store, Holds, Trace, run_traces}
use unify_em.Data.Users.{new_user}
use unify_em.Examples.Fixtures.{file}

abbrev no_users : Db
no_users = record file { user_meta = some (record { items = []; distinct = tt }) }

abbrev calls : List (Op UserMeta)
calls =
    put "bob" (new_user 3 (record { user = "bob"; display_name = "Bob"; email = "" }))
    ∷ fetch "bob"
    ∷ remove "bob"
    ∷ fetch "bob"
    ∷ []

run_traces_example :
    (b' : listed.Bucket (Stored UserMeta)) × Holds user_meta_bucket
      (run_calls user_meta_bucket calls no_users).1
      b'
    × Trace
        (store user_meta_bucket (record { items = []; distinct = tt }))
        calls
        (run_calls user_meta_bucket calls no_users).0
        (store user_meta_bucket b')
run_traces_example =
    run_traces user_meta_bucket calls no_users (record { items = []; distinct = tt })
      (record { at = refl; readable = λ k h. cc h })
