-- ===== src/Command.antt =====
-- Commands as actions: a command reads the clock, its request and one database, replies or throws,
-- and leaves the database and the events that it emitted. What was written before a throw stays.
pub mod Reads
use unit_redis_ness.Prelude.{ℕ, zero, suc, String, Option, List, [], ◌∷◌, ◌++◌, length, get_or}
use unit_redis_ness.Number.{Number}
use unit_redis_ness.Outcome.{Outcome, returns, throws}
use unit_redis_ness.DatabaseValue.{DatabaseValue}
use unit_redis_ness.Database
use unit_redis_ness.Database.{Database}

-- `__keyevent@${db}__:${operation} ${key}`
pub data Event : Type 0 where
  key_event : Number → String → String → Event

-- src/server/default-request.ts, with the session's current database and the clock.
pub record Request : Type 0 where
  pub command : String
  pub params : List String
  pub current_db : Number
  pub now : ℕ

abbrev pub get_param : Request → ℕ → String
get_param r i = get_or r.params i ""

abbrev pub get_length : Request → ℕ
get_length r = length r.params

pub record Store : Type 0 where
  pub db : Database
  pub emitted : List Event

abbrev pub Command {ℓ} : Type ℓ → Type ℓ
Command A = Store → Outcome A × Store

module _ {ℓ} {A B : Type ℓ} where
  abbrev pub continue : Outcome A → (A → Command B) → Command B
  continue (returns a) f s = f a s
  continue (throws m) f s = (throws m, s)

  infixl 5 ◌>>=◌ ◌>>◌
  abbrev pub ◌>>=◌ : Command A → (A → Command B) → Command B
  ◌>>=◌ m f s = continue (m s).0 f (m s).1

  abbrev pub ◌>>◌ : Command A → Command B → Command B
  m >> n = m >>= λ _. n

module _ {ℓ} {A : Type ℓ} where
  abbrev pub pure : A → Command A
  pure a s = (returns a, s)

  abbrev pub lift : Outcome A → Command A
  lift r s = (r, s)

-- The database's methods, on the database that the command was given.
abbrev pub get : Request → String → Command (Option DatabaseValue)
get r key s =
    (returns (Database.get r.now s.db key).0, record s { db = (Database.get r.now s.db key).1 })

abbrev pub put : String → DatabaseValue → Command (Unit {0})
put key v s = (returns tt, record s { db = Database.put s.db key v })

abbrev pub remove : String → Command (Option DatabaseValue)
remove key s =
    (returns (Database.remove s.db key).0, record s { db = (Database.remove s.db key).1 })

-- request.getServerContext().emit(...), n times
abbrev pub repeated : ℕ → Event → List Event
repeated zero e = []
repeated (suc n) e = e ∷ repeated n e

abbrev pub emit : List Event → Command (Unit {0})
emit es s = (returns tt, record s { emitted = s.emitted ++ es })
