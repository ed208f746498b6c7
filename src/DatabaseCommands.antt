-- ===== src/DatabaseCommands.antt =====
-- src/resp/command/db: dbsize-, flushdb-, flushall- and select-command.ts, and
-- src/resp/command/key/move-command.ts. They see the session or more than one database.
pub mod Flush
pub mod Move
pub mod Soundness
use unit_redis_ness.Prelude.{
  ℕ, zero, suc, Bool, Option, none, some, List, [], ◌∷◌, String, ℤ, pos, negsuc, ◌||◌, get_or,
  if◌then◌else◌,
}
use unit_redis_ness.Number.{Number, Js, integer, is_nan, same, less}
use unit_redis_ness.Outcome.{Outcome, returns}
use unit_redis_ness.Dictionary
use unit_redis_ness.DatabaseValue.{DatabaseValue}
use unit_redis_ness.Database
use unit_redis_ness.Database.{Database}
use unit_redis_ness.Token.{Token, count, error, response_ok}
use unit_redis_ness.Session.{Call, set_current_db}
use unit_redis_ness.World.{World, get_database, put_database}

-- `for (const key of db.keys()) db.remove(key)`
unfoldable pub remove_each : List String → Database → Database
remove_each [] db = db
remove_each (key ∷ keys) db = remove_each keys (Database.remove db key).1

unfoldable pub flush : Database → Database
unfolding remove_each
flush db = remove_each (Dictionary.keys db) db

abbrev pub out_of_range : Token
out_of_range = error "ERR DB index is out of range"

module _ {C : Type 0} where
  unfoldable pub dbsize : Number → World C → Outcome Token × World C
  dbsize id w = (returns (count (Dictionary.size (get_database id w))), w)

  unfoldable pub flushdb : Number → World C → Outcome Token × World C
  unfolding flush put_database
  flushdb id w = (returns response_ok, put_database id (flush (get_database id w)) w)

  -- `for (let i = 0; i < 16; i++)`: n rounds are left, from i.
  unfoldable pub flush_from : ℕ → ℕ → World C → World C
  unfolding flush put_database
  flush_from zero i w = w
  flush_from (suc n) i w =
      flush_from n (suc i)
        (put_database (integer (pos i)) (flush (get_database (integer (pos i)) w)) w)

  unfoldable pub flushall : World C → Outcome Token × World C
  unfolding flush_from
  flushall w = (returns response_ok, flush_from 16 0 w)

  module _ (js : Js) where
    unfoldable pub select : Call → World C → Outcome Token × World C
    unfolding set_current_db
    select call w =
        let id = js.number (get_or call.params 0 "") in
        if is_nan id
        then (returns (error "ERR invalid DB index"), w)
        else if less (integer (negsuc 0)) id
        then (if less id (integer (pos 16))
            then (returns response_ok, record w { session = set_current_db id w.session })
            else (returns out_of_range, w))
        else (returns out_of_range, w)

    -- `newDb.exists(key)`; it may remove a lapsed entry.
    unfoldable pub put_if_free :
        Number
        → Number
        → String
        → DatabaseValue
        → Bool × Database
        → World C
        → Outcome Token × World C
    unfolding put_database
    put_if_free id target key v (there, db) w =
        let w' = put_database target db w in
        if there
        then (returns (count 0), w')
        else (let w'' = put_database target (Database.put (get_database target w') key v) w' in
            (returns (count 1), put_database id (Database.remove (get_database id w'') key).1 w''))

    unfoldable pub move_of :
        ℕ
        → Number
        → Number
        → String
        → Option DatabaseValue × Database
        → World C
        → Outcome Token × World C
    unfolding put_if_free
    move_of now id target key (none, db) w = (returns (count 0), put_database id db w)
    move_of now id target key (some v, db) w =
        let w' = put_database id db w in
        put_if_free id target key v (Database.exists now (get_database target w') key) w'

    -- `id` is the number of the database that the command was given.
    unfoldable pub move : ℕ → Call → Number → World C → Outcome Token × World C
    unfolding move_of
    move now call id w =
        let key = get_or call.params 0 "" in
        let target = js.number (get_or call.params 1 "") in
        if is_nan target || (less target (integer (pos 0)) || less (integer (pos 15)) target)
        then (returns (error "ERR index out of range"), w)
        else if same target w.session.current_db
        then (returns (error "ERR source and destination objects are the same"), w)
        else move_of now id target key (Database.get now (get_database id w) key) w
