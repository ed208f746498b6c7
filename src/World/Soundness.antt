-- ===== src/World/Soundness.antt =====
-- A server all of whose databases are sound.
use unit_redis_ness.Prelude.{ℕ, Bool, true, false, if◌then◌else◌, Bool-cases, inl, inr}
use unit_redis_ness.Number.{Number, same}
use unit_redis_ness.Outcome.{Outcome}
use unit_redis_ness.Database.{Database}
use unit_redis_ness.Token.{Token}
use unit_redis_ness.Command.{Request, Command}
use unit_redis_ness.Session.{Call}
use unit_redis_ness.World.{World, get_database, put_database, on_database, request_of, store_of}
use unit_redis_ness.Soundness.{IsSound, Sound, Any}

module _ {C : Type 0} where
  -- Every database of the server is sound.
  abbrev pub IsSoundWorld : World C → Type 0
  IsSoundWorld w = (n : Number) → IsSound (get_database n w)

  pub put_database-IsSoundWorld :
      (w : World C) (id : Number) (db : Database)
      → IsSoundWorld w
      → IsSound db
      → IsSoundWorld (put_database id db w)
  unfolding get_database put_database
  put_database-IsSoundWorld w id db h k n = elim (Bool-cases (same n id)) [
    | inl here ↦ rw here k
    | inr there ↦ rw there (h n)
  ]

  pub on_database-IsSoundWorld :
      (f : Request → Command Token)
      → ((r : Request) → Sound Any (f r))
      → (now : ℕ) (call : Call) (id : Number) (w : World C) → IsSoundWorld w
      → IsSoundWorld (on_database f now call id w).1
  unfolding on_database
  on_database-IsSoundWorld f sound now call id w h =
      let (o, s) = f (request_of now call w) (store_of id w) in
      put_database-IsSoundWorld w id s.db h
        ((sound (request_of now call w)).run (store_of id w) (h id)).0

  pub IsSoundWorld-if :
      (b : Bool) (x y : Outcome Token × World C)
      → IsSoundWorld x.1
      → IsSoundWorld y.1
      → IsSoundWorld (if b then x else y).1
  IsSoundWorld-if true x y here there = here
  IsSoundWorld-if false x y here there = there
