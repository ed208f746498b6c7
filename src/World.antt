-- ===== src/World.antt =====
-- src/server/resp-server-context.ts: the databases of the server, with the session that is served
-- and the events emitted so far; and the running of a database command in it.
pub mod Soundness
use unit_redis_ness.Prelude.{ℕ, Option, none, some, List, if◌then◌else◌}
use unit_redis_ness.Number.{Number, same}
use unit_redis_ness.Outcome.{Outcome}
use unit_redis_ness.Database
use unit_redis_ness.Database.{Database}
use unit_redis_ness.Token.{Token}
use unit_redis_ness.Command.{Command, Event, Request, Store}
use unit_redis_ness.Session.{Session, Call}

-- The databases are kept at the keys `_${id}`, which differ where the numbers differ.
pub record World (C : Type 0) : Type 0 where
  pub databases : Number → Option Database
  pub session : Session C
  pub emitted : List Event

-- What a command does with the clock, its request and the number of the database that it was
-- given, in the world.
abbrev pub Action : Type 0 → Type 0
Action C = ℕ → Call → Number → World C → Outcome Token × World C

abbrev pub stored : Option Database → Database
stored none = Database.empty
stored (some db) = db

module _ {C : Type 0} where
  -- getDatabase: a database that is not there is made, and empty.
  unfoldable pub get_database : Number → World C → Database
  get_database id w = stored (w.databases id)

  unfoldable pub put_database : Number → Database → World C → World C
  put_database id db w = record w { databases = λ n. if same n id then some db else w.databases n }

  abbrev pub request_of : ℕ → Call → World C → Request
  request_of now call w = record {
    command = call.command;
    params = call.params;
    current_db = w.session.current_db;
    now = now;
  }

  abbrev pub store_of : Number → World C → Store
  store_of id w = record { db = get_database id w; emitted = w.emitted }

  -- `command.execSync(request, db)` of a command that uses nothing but `db` and the emitter.
  unfoldable pub on_database : (Request → Command Token) → Action C
  unfolding get_database put_database
  on_database f now call id w =
      let (o, s) = f (request_of now call w) (store_of id w) in
      (o, record (put_database id s.db w) { emitted = s.emitted })
