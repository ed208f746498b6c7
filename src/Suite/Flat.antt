-- ===== src/Suite/Flat.antt =====
-- The commands that work on the whole server keep EXEC out of the open transaction.
use unit_redis_ness.Prelude.{
  ℕ, zero, suc, String, ◌≡◌, Bool, true, false, ◌||◌, Option, none, some, List, [], ◌∷◌, ◌++◌,
  get_or, if◌then◌else◌, Option-cases, inl, inr, pos, negsuc,
}
use unit_redis_ness.Number.{Number, Js, same, integer, less, is_nan}
use unit_redis_ness.Outcome.{Outcome}
use unit_redis_ness.DatabaseValue.{DatabaseValue}
use unit_redis_ness.Database
use unit_redis_ness.Database.{Database}
use unit_redis_ness.Token.{Token}
use unit_redis_ness.Session.{
  Call, queue_request, start_transaction, abort_transaction, set_current_db,
}
use unit_redis_ness.World.{World, Action, put_database, get_database}
use unit_redis_ness.DatabaseCommands.{flush_from, select, move, move_of, put_if_free, flush}
use unit_redis_ness.Transaction.{multi, discard}
use unit_redis_ness.Suite.{CommandObject}
use unit_redis_ness.Suite.Depth.{is_exec, NoExec, IsFlat}

abbrev pub KeepsFlat : Action CommandObject → Type 0
KeepsFlat f =
    (now : ℕ) (call : Call) (id : Number) (w : World CommandObject)
    → IsFlat w
    → IsFlat (f now call id w).1

pub IsFlat-if :
    (b : Bool) (x y : Outcome Token × World CommandObject)
    → IsFlat x.1
    → IsFlat y.1
    → IsFlat (if b then x else y).1
IsFlat-if true x y here there = here
IsFlat-if false x y here there = there

NoExec-append :
    (queue : List (CommandObject × Call)) (c : CommandObject) (call : Call)
    → NoExec queue
    → is_exec c ≡ false
    → NoExec (queue ++ (c, call) ∷ [])
NoExec-append [] c call h k = (k, tt)
NoExec-append ((b, first) ∷ queue) c call h k = (h.0, NoExec-append queue c call h.1 k)

pub queue_request-IsFlat :
    (w : World CommandObject) (c : CommandObject) (call : Call)
    → IsFlat w
    → is_exec c ≡ false
    → IsFlat (record w { session = queue_request (c, call) w.session })
unfolding queue_request
queue_request-IsFlat w c call h k = elim (Option-cases w.session.commands) [
  | inl e ↦ rw e (k, tt)
  | inr (queue, e) ↦ rw e (NoExec-append queue c call (rw e at h) k)
]

pub flush_from-IsFlat : (n i : ℕ) (w : World CommandObject) → IsFlat w → IsFlat (flush_from n i w)
unfolding flush_from put_database
flush_from-IsFlat zero i w h = h
flush_from-IsFlat (suc n) i w h =
    flush_from-IsFlat n (suc i)
      (put_database (integer (pos i)) (flush (get_database (integer (pos i)) w)) w) h

pub multi-IsFlat : (w : World CommandObject) → IsFlat w → IsFlat (multi w).1
unfolding multi start_transaction
multi-IsFlat w h = elim (Option-cases w.session.commands) [
  | inl e ↦ rw e tt
  | inr (queue, e) ↦ rw e (rw e at h)
]

pub discard-IsFlat : (w : World CommandObject) → IsFlat w → IsFlat (discard w).1
unfolding discard abort_transaction
discard-IsFlat w h = elim (Option-cases w.session.commands) [
  | inl e ↦ rw e tt
  | inr (queue, e) ↦ rw e tt
]

module _ (js : Js) where
  pub select-IsFlat :
      (call : Call) (w : World CommandObject) → IsFlat w → IsFlat (select js call w).1
  unfolding select set_current_db
  select-IsFlat call w h =
      let id = js.number (get_or call.params 0 "") in
      IsFlat-if (is_nan id) _ _ h (
        IsFlat-if (less (integer (negsuc 0)) id) _ _
          (IsFlat-if (less id (integer (pos 16))) _ _ h h) h)

  put_if_free-IsFlat :
      (id target : Number) (key : String) (v : DatabaseValue) (there : Bool) (db : Database)
      (w : World CommandObject)
      → IsFlat w
      → IsFlat (put_if_free js id target key v (there, db) w).1
  unfolding put_if_free put_database
  put_if_free-IsFlat id target key v true db w h = h
  put_if_free-IsFlat id target key v false db w h = h

  move_of-IsFlat :
      (now : ℕ) (id target : Number) (key : String) (o : Option DatabaseValue) (db : Database)
      (w : World CommandObject)
      → IsFlat w
      → IsFlat (move_of js now id target key (o, db) w).1
  unfolding move_of put_database
  move_of-IsFlat now id target key none db w h = h
  move_of-IsFlat now id target key (some v) db w h =
      let w' = put_database id db w in
      let found = Database.exists now (get_database target w') key in
      put_if_free-IsFlat id target key v found.0 found.1 w' h

  pub move-IsFlat :
      (now : ℕ) (call : Call) (id : Number) (w : World CommandObject)
      → IsFlat w
      → IsFlat (move js now call id w).1
  unfolding move
  move-IsFlat now call id w h =
      let key = get_or call.params 0 "" in
      let target = js.number (get_or call.params 1 "") in
      let found = Database.get now (get_database id w) key in
      IsFlat-if (is_nan target || (less target (integer (pos 0)) || less (integer (pos 15)) target))
        _ _ h
        (IsFlat-if (same target w.session.current_db) _ _ h
          (move_of-IsFlat now id target key found.0 found.1 w h))
