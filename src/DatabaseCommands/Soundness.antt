-- ===== src/DatabaseCommands/Soundness.antt =====
-- DBSIZE, FLUSHDB, FLUSHALL, SELECT and MOVE keep the data of the server sound.
use unit_redis_ness.Prelude.{
  ℕ, zero, suc, String, Bool, true, false, ◌||◌, Option, none, some, List, [], ◌∷◌, get_or, pos,
  negsuc,
}
use unit_redis_ness.Number.{Number, Js, same, integer, less, is_nan}
use unit_redis_ness.DatabaseValue.{DatabaseValue}
use unit_redis_ness.Database
use unit_redis_ness.Database.{Database}
use unit_redis_ness.Dictionary
use unit_redis_ness.Session.{Call}
use unit_redis_ness.World.{World, get_database, put_database}
use unit_redis_ness.DatabaseCommands.{
  remove_each, flush, flushdb, flush_from, select, move, move_of, put_if_free,
}
use unit_redis_ness.Soundness.{
  IsSound, IsSoundItem, IsSoundPayload, get-IsSound, get-IsSoundItem, put-IsSound, remove-IsSound,
}
use unit_redis_ness.World.Soundness.{IsSoundWorld, put_database-IsSoundWorld, IsSoundWorld-if}

remove_each-IsSound :
    (keys : List String) (db : Database) → IsSound db → IsSound (remove_each keys db)
unfolding remove_each
remove_each-IsSound [] db h = h
remove_each-IsSound (key ∷ keys) db h =
    remove_each-IsSound keys (Database.remove db key).1 (remove-IsSound db h key)

pub flush-IsSound : (db : Database) → IsSound db → IsSound (flush db)
unfolding flush
flush-IsSound db h = remove_each-IsSound (Dictionary.keys db) db h

module _ {C : Type 0} where
  pub flush_from-IsSoundWorld :
      (n i : ℕ) (w : World C) → IsSoundWorld w → IsSoundWorld (flush_from n i w)
  unfolding flush_from
  flush_from-IsSoundWorld zero i w h = h
  flush_from-IsSoundWorld (suc n) i w h =
      let id = integer (pos i) in
      flush_from-IsSoundWorld n (suc i) (put_database id (flush (get_database id w)) w) (
        put_database-IsSoundWorld w id (flush (get_database id w)) h
          (flush-IsSound (get_database id w) (h id)))

  pub flushdb-IsSoundWorld :
      (id : Number) (w : World C) → IsSoundWorld w → IsSoundWorld (flushdb id w).1
  unfolding flushdb
  flushdb-IsSoundWorld id w h =
      put_database-IsSoundWorld w id (flush (get_database id w)) h
        (flush-IsSound (get_database id w) (h id))

  module _ (js : Js) where
    pub select-IsSoundWorld :
        (call : Call) (w : World C) → IsSoundWorld w → IsSoundWorld (select js call w).1
    unfolding select get_database
    select-IsSoundWorld call w h =
        let id = js.number (get_or call.params 0 "") in
        IsSoundWorld-if (is_nan id) _ _ h (
          IsSoundWorld-if (less (integer (negsuc 0)) id) _ _
            (IsSoundWorld-if (less id (integer (pos 16))) _ _ h h) h)

    put_if_free-IsSoundWorld :
        (id target : Number) (key : String) (v : DatabaseValue) (there : Bool) (db : Database)
        (w : World C)
        → IsSoundPayload v.value
        → IsSound db
        → IsSoundWorld w
        → IsSoundWorld (put_if_free js id target key v (there, db) w).1
    unfolding put_if_free
    put_if_free-IsSoundWorld id target key v true db w new k h =
        put_database-IsSoundWorld w target db h k
    put_if_free-IsSoundWorld id target key v false db w new k h =
        let w' = put_database target db w in
        let h' = put_database-IsSoundWorld w target db h k in
        let db' = Database.put (get_database target w') key v in
        let w'' = put_database target db' w' in
        let h'' =
          put_database-IsSoundWorld w' target db' h'
            (put-IsSound (get_database target w') (h' target) key v new) in
        put_database-IsSoundWorld w'' id (Database.remove (get_database id w'') key).1 h''
          (remove-IsSound (get_database id w'') (h'' id) key)

    move_of-IsSoundWorld :
        (now : ℕ) (id target : Number) (key : String) (o : Option DatabaseValue) (db : Database)
        (w : World C)
        → IsSoundItem o
        → IsSound db
        → IsSoundWorld w
        → IsSoundWorld (move_of js now id target key (o, db) w).1
    unfolding move_of Database.exists
    move_of-IsSoundWorld now id target key none db w item k h =
        put_database-IsSoundWorld w id db h k
    move_of-IsSoundWorld now id target key (some v) db w item k h =
        let w' = put_database id db w in
        let h' = put_database-IsSoundWorld w id db h k in
        put_if_free-IsSoundWorld id target key v
          (Database.exists now (get_database target w') key).0
          (Database.get now (get_database target w') key).1 w' item
          (get-IsSound (get_database target w') (h' target) now key) h'

    pub move-IsSoundWorld :
        (now : ℕ) (call : Call) (id : Number) (w : World C)
        → IsSoundWorld w
        → IsSoundWorld (move js now call id w).1
    unfolding move
    move-IsSoundWorld now call id w h =
        let key = get_or call.params 0 "" in
        let target = js.number (get_or call.params 1 "") in
        let db = get_database id w in
        IsSoundWorld-if
          (is_nan target || (less target (integer (pos 0)) || less (integer (pos 15)) target)) _ _ h
          (IsSoundWorld-if (same target w.session.current_db) _ _ h (
            move_of-IsSoundWorld now id target key (Database.get now db key).0
              (Database.get now db key).1 w (get-IsSoundItem db (h id) now key)
              (get-IsSound db (h id) now key) h))
