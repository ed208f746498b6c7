-- ===== src/Suite/Soundness.antt =====
-- The data of the whole server stays sound, whatever the client sends.
use unit_redis_ness.Prelude.{
  ℕ, Bool, not, ◌&&◌, Option, none, some, List, [], ◌∷◌, get_or, Bool-cases, Option-cases, inl, inr,
}
use unit_redis_ness.Number.{Number, Js}
use unit_redis_ness.DatabaseValue.{DataType}
use unit_redis_ness.Database
use unit_redis_ness.Database.{Database}
use unit_redis_ness.Session.{Call, get_transaction, in_transaction}
use unit_redis_ness.World.{World, Action, get_database}
use unit_redis_ness.Processor.{
  Info, is_queueable, is_subscribed, wrong_count, exec_sync, checked, check_type, run_or_queue,
  fail_transaction,
}
use unit_redis_ness.ServerCommands
use unit_redis_ness.Transaction.{multi, discard, exec, run_all}
use unit_redis_ness.Soundness.{get-IsSound}
use unit_redis_ness.World.Soundness.{IsSoundWorld, put_database-IsSoundWorld, IsSoundWorld-if}

-- The action keeps the databases sound.
abbrev pub KeepsSound : {C : Type 0} → Action C → Type 0
KeepsSound f =
    (now : ℕ) (call : Call) (id : Number) (w : World _)
    → IsSoundWorld w
    → IsSoundWorld (f now call id w).1

module _ {C : Type 0} where
  pub multi-IsSoundWorld : (w : World C) → IsSoundWorld w → IsSoundWorld (multi w).1
  unfolding multi get_database
  multi-IsSoundWorld w h = IsSoundWorld-if (in_transaction w.session) _ _ h h

  pub discard-IsSoundWorld : (w : World C) → IsSoundWorld w → IsSoundWorld (discard w).1
  unfolding discard get_database
  discard-IsSoundWorld w h = IsSoundWorld-if (in_transaction w.session) _ _ h h

  pub null-IsSoundWorld :
      (call : Call) (w : World C) → IsSoundWorld w → IsSoundWorld (ServerCommands.null call w).1
  unfolding ServerCommands.null get_database
  null-IsSoundWorld call w h = h

  module _ (run : C → Action C) (keeps : (c : C) → KeepsSound (run c)) where
    run_all-IsSoundWorld :
        (now : ℕ) (id : Number) (queue : List (C × Call)) (w : World C)
        → IsSoundWorld w
        → IsSoundWorld (run_all run now id queue w).1
    unfolding run_all
    run_all-IsSoundWorld now id [] w h = h
    run_all-IsSoundWorld now id ((c, call) ∷ queue) w h =
        run_all-IsSoundWorld now id queue (run c now call id w).1 (keeps c now call id w h)

    pub exec-IsSoundWorld :
        (now : ℕ) (id : Number) (w : World C) → IsSoundWorld w → IsSoundWorld (exec run now id w).1
    unfolding exec get_transaction get_database
    exec-IsSoundWorld now id w h =
        IsSoundWorld-if (in_transaction w.session) _ _
          (IsSoundWorld-if w.session.errored _ _ h (elim (Option-cases w.session.commands) [
            | inl e ↦ rw e h
            | inr (queue, e) ↦ rw e (
                run_all-IsSoundWorld now id queue
                  (record w { session = record w.session { commands = none } }) h)
          ]))
          h

    fail_transaction-IsSoundWorld :
        (w : World C) → IsSoundWorld w → IsSoundWorld (fail_transaction w)
    unfolding fail_transaction get_database
    fail_transaction-IsSoundWorld w h = elim (Bool-cases (in_transaction w.session)) [
      | inl opened ↦ rw opened h
      | inr closed ↦ rw closed h
    ]

    check_type-IsSoundWorld :
        (now : ℕ) (call : Call) (type : Option DataType) (w : World C)
        → IsSoundWorld w
        → IsSoundWorld (check_type now call type w).1
    unfolding check_type Database.is_type
    check_type-IsSoundWorld now call none w h = h
    check_type-IsSoundWorld now call (some type) w h =
        let id = w.session.current_db in
        let key = get_or call.params 0 "" in
        put_database-IsSoundWorld w id (Database.get now (get_database id w) key).1 h
          (get-IsSound (get_database id w) (h id) now key)

    module _ (js : Js) (info : C → Info) where
      run_or_queue-IsSoundWorld :
          (c : C) (now : ℕ) (call : Call) (w : World C)
          → IsSoundWorld w
          → IsSoundWorld (run_or_queue js info run c now call w).1
      unfolding run_or_queue get_database
      run_or_queue-IsSoundWorld c now call w h =
          IsSoundWorld-if (in_transaction w.session && is_queueable js call) _ _ h
            (keeps c now call w.session.current_db w h)

      checked-IsSoundWorld :
          (c : C) (now : ℕ) (call : Call) (fits : Bool) (w : World C)
          → IsSoundWorld w
          → IsSoundWorld (checked js info run c now call fits w).1
      unfolding checked
      checked-IsSoundWorld c now call fits w h =
          IsSoundWorld-if (not fits) _ _ (fail_transaction-IsSoundWorld w h) (
            IsSoundWorld-if (is_subscribed w.session && not (info c).pub_sub_allowed) _ _ h
              (run_or_queue-IsSoundWorld c now call w h))

      pub exec_sync-IsSoundWorld :
          (c : C) (now : ℕ) (call : Call) (w : World C)
          → IsSoundWorld w
          → IsSoundWorld (exec_sync js info run c now call w).1
      unfolding exec_sync
      exec_sync-IsSoundWorld c now call w h =
          let type = (info c).data_type in
          IsSoundWorld-if (wrong_count (info c) call) _ _ (fail_transaction-IsSoundWorld w h) (
            checked-IsSoundWorld c now call (check_type now call type w).0
              (check_type now call type w).1 (check_type-IsSoundWorld now call type w h))
