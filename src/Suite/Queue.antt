-- ===== src/Suite/Queue.antt =====
-- In no run of the server does a transaction come to hold an EXEC.
use unit_redis_ness.Prelude.{
  ℕ, zero, suc, String, ◌≡◌, true, false, not, ◌&&◌, Option, none, some, List, [], ◌∷◌, Bool-cases,
  Option-cases, inl, inr,
}
use unit_redis_ness.Number.{Number, Js}
use unit_redis_ness.DatabaseValue.{DataType}
use unit_redis_ness.Session.{
  Call, new_session, get_transaction, in_transaction, abort_transaction, set_error,
}
use unit_redis_ness.World.{World, Action, on_database, put_database}
use unit_redis_ness.Processor.{
  exec_sync, checked, check_type, run_or_queue, is_queueable, fail_transaction, wrong_count,
  is_subscribed,
}
use unit_redis_ness.DatabaseCommands.{flushdb, flushall, dbsize}
use unit_redis_ness.ServerCommands
use unit_redis_ness.Transaction.{exec, run_all}
use unit_redis_ness.Suite.{CommandObject, info_of}
use unit_redis_ness.Suite.Run.{run, execute, receive, get_command, parse_array}
use unit_redis_ness.Suite.Depth.{is_exec, IsFlat, queued-is_exec, receive-depth}
use unit_redis_ness.Suite.Reach.{Reaches, start, after}
use unit_redis_ness.Suite.Flat.{
  KeepsFlat, IsFlat-if, queue_request-IsFlat, flush_from-IsFlat, multi-IsFlat, discard-IsFlat,
  select-IsFlat, move-IsFlat,
}

run_all-IsFlat :
    (run : CommandObject → Action CommandObject)
    → ((c : CommandObject) → KeepsFlat (run c))
    → (now : ℕ) (id : Number) (queue : List (CommandObject × Call)) (w : World CommandObject)
    → IsFlat w
    → IsFlat (run_all run now id queue w).1
unfolding run_all
run_all-IsFlat run keeps now id [] w h = h
run_all-IsFlat run keeps now id ((c, call) ∷ queue) w h =
    run_all-IsFlat run keeps now id queue (run c now call id w).1 (keeps c now call id w h)

exec-IsFlat :
    (run : CommandObject → Action CommandObject)
    → ((c : CommandObject) → KeepsFlat (run c))
    → (now : ℕ) (id : Number) (w : World CommandObject) → IsFlat w
    → IsFlat (exec run now id w).1
unfolding exec get_transaction abort_transaction
exec-IsFlat run keeps now id w h = elim (Option-cases w.session.commands) [
  | inl e ↦ rw e tt
  | inr (queue, e) ↦ rw e (
      IsFlat-if w.session.errored _ _ tt (
        run_all-IsFlat run keeps now id queue
          (record w { session = record w.session { commands = none } }) tt))
]

fail_transaction-IsFlat : (w : World CommandObject) → IsFlat w → IsFlat (fail_transaction w)
unfolding fail_transaction set_error
fail_transaction-IsFlat w h = elim (Bool-cases (in_transaction w.session)) [
  | inl opened ↦ rw opened h
  | inr closed ↦ rw closed h
]

check_type-IsFlat :
    (now : ℕ) (call : Call) (type : Option DataType) (w : World CommandObject)
    → IsFlat w
    → IsFlat (check_type now call type w).1
unfolding check_type put_database
check_type-IsFlat now call none w h = h
check_type-IsFlat now call (some type) w h = h

module _ (js : Js) (others : String → Action CommandObject)
    (keeps : (name : String) → KeepsFlat (others name)) where
  run-KeepsFlat : (depth : ℕ) (c : CommandObject) → KeepsFlat (run js others depth c)
  unfolding run on_database put_database dbsize flushdb flushall ServerCommands.null set_error
  run-KeepsFlat depth (CommandObject.plain c) now call id w h = h
  run-KeepsFlat depth CommandObject.select_command now call id w h = select-IsFlat js call w h
  run-KeepsFlat depth CommandObject.dbsize_command now call id w h = h
  run-KeepsFlat depth CommandObject.flushdb_command now call id w h = h
  run-KeepsFlat depth CommandObject.flushall_command now call id w h = flush_from-IsFlat 16 0 w h
  run-KeepsFlat depth CommandObject.move_command now call id w h = move-IsFlat js now call id w h
  run-KeepsFlat depth CommandObject.multi_command now call id w h = multi-IsFlat w h
  run-KeepsFlat depth CommandObject.discard_command now call id w h = discard-IsFlat w h
  run-KeepsFlat zero CommandObject.exec_command now call id w h = h
  run-KeepsFlat (suc depth) CommandObject.exec_command now call id w h =
      exec-IsFlat (run js others depth) (run-KeepsFlat depth) now id w h
  run-KeepsFlat depth CommandObject.null_command now call id w h = h
  run-KeepsFlat depth (CommandObject.other name least most) now call id w h =
      keeps name now call id w h

  module _ (depth : ℕ) (c : CommandObject) (now : ℕ) (call : Call)
      (queued : is_queueable js call ≡ true → is_exec c ≡ false) where
    run_or_queue-IsFlat :
        (w : World CommandObject)
        → IsFlat w
        → IsFlat (run_or_queue js info_of (run js others depth) c now call w).1
    unfolding run_or_queue
    run_or_queue-IsFlat w h = elim (Bool-cases (is_queueable js call)) [
      | inl goes ↦ rw goes (
          IsFlat-if (in_transaction w.session && true) _ _
            (queue_request-IsFlat w c call h (queued goes))
            (run-KeepsFlat depth c now call w.session.current_db w h))
      | inr stays ↦ elim (Bool-cases (in_transaction w.session)) [
        | inl opened ↦ rw (stays, opened) (run-KeepsFlat depth c now call w.session.current_db w h)
        | inr closed ↦ rw (stays, closed) (run-KeepsFlat depth c now call w.session.current_db w h)
      ]
    ]

    wrapped-IsFlat :
        (w : World CommandObject)
        → IsFlat w
        → IsFlat (exec_sync js info_of (run js others depth) c now call w).1
    unfolding exec_sync checked
    wrapped-IsFlat w h =
        let type = (info_of c).data_type in
        let (fits, w') = check_type now call type w in
        let h' = check_type-IsFlat now call type w h in
        IsFlat-if (wrong_count (info_of c) call) _ _ (fail_transaction-IsFlat w h) (
          IsFlat-if (not fits) _ _ (fail_transaction-IsFlat w' h') (
            IsFlat-if (is_subscribed w'.session && not (info_of c).pub_sub_allowed) _ _ h'
              (run_or_queue-IsFlat w' h')))

  execute-IsFlat :
      (depth : ℕ) (c : CommandObject) (now : ℕ) (call : Call) (w : World CommandObject)
      → (is_queueable js call ≡ true → is_exec c ≡ false)
      → IsFlat w
      → IsFlat (execute js others depth c now call w).1
  unfolding execute ServerCommands.null set_error
  execute-IsFlat depth (CommandObject.plain p) now call w q h =
      wrapped-IsFlat depth (CommandObject.plain p) now call q w h
  execute-IsFlat depth CommandObject.select_command now call w q h =
      wrapped-IsFlat depth CommandObject.select_command now call q w h
  execute-IsFlat depth CommandObject.dbsize_command now call w q h =
      wrapped-IsFlat depth CommandObject.dbsize_command now call q w h
  execute-IsFlat depth CommandObject.flushdb_command now call w q h =
      wrapped-IsFlat depth CommandObject.flushdb_command now call q w h
  execute-IsFlat depth CommandObject.flushall_command now call w q h =
      wrapped-IsFlat depth CommandObject.flushall_command now call q w h
  execute-IsFlat depth CommandObject.move_command now call w q h =
      wrapped-IsFlat depth CommandObject.move_command now call q w h
  execute-IsFlat depth CommandObject.multi_command now call w q h =
      wrapped-IsFlat depth CommandObject.multi_command now call q w h
  execute-IsFlat depth CommandObject.discard_command now call w q h =
      wrapped-IsFlat depth CommandObject.discard_command now call q w h
  execute-IsFlat depth CommandObject.exec_command now call w q h =
      wrapped-IsFlat depth CommandObject.exec_command now call q w h
  execute-IsFlat depth (CommandObject.other name least most) now call w q h =
      wrapped-IsFlat depth (CommandObject.other name least most) now call q w h
  execute-IsFlat depth CommandObject.null_command now call w q h = h

  receive-IsFlat :
      (depth now : ℕ) (message : List String) (w : World CommandObject)
      → IsFlat w
      → IsFlat (receive js others depth now message w).1
  unfolding receive
  receive-IsFlat depth now message w h =
      let call = parse_array message in
      execute-IsFlat depth (get_command js call.command) now call w (queued-is_exec js call) h

  Reaches-IsFlat : (depth : ℕ) {w : World CommandObject} → Reaches js others depth w → IsFlat w
  unfolding new_session
  Reaches-IsFlat depth start = tt
  Reaches-IsFlat depth (after now message w before) =
      receive-IsFlat depth now message w (Reaches-IsFlat depth before)

  -- Where the commands that have no model do not queue an EXEC: in every world that a client can
  -- bring about from the start of the server, any message has the same reply and the same effect
  -- at every depth of nested EXEC from one on, so that EXEC, which runs what the transaction
  -- holds, never comes to run another EXEC.
  pub receive_enough :
      (depth d now : ℕ) (message : List String) {w : World CommandObject}
      → Reaches js others depth w
      → receive js others (suc d) now message w ≡ receive js others 1 now message w
  receive_enough depth d now message {w} reached =
      receive-depth js others now d message w (Reaches-IsFlat depth reached)
