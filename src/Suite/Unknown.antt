-- ===== src/Suite/Unknown.antt =====
-- An unknown command inside of a transaction.
use unit_redis_ness.Prelude.{
  ℕ, suc, String, ◌≡◌, refl, ◌∙◌, true, false, none, List, [], ◌∷◌, Bool-cases, Option-cases, inl,
  inr,
}
use unit_redis_ness.Number.{Js}
use unit_redis_ness.Outcome.{returns}
use unit_redis_ness.Dictionary
use unit_redis_ness.Token.{error}
use unit_redis_ness.Session.{in_transaction, set_error}
use unit_redis_ness.World.{World, Action}
use unit_redis_ness.Processor.{
  is_subscribed, is_queueable, exec_sync, wrong_count, checked, check_type, run_or_queue,
}
use unit_redis_ness.ServerCommands
use unit_redis_ness.ServerCommands.{unknown_command}
use unit_redis_ness.Transaction.{exec}
use unit_redis_ness.Transaction.Laws.{closed}
use unit_redis_ness.Suite.{CommandObject, commands, info_of}
use unit_redis_ness.Suite.Run.{run, execute, receive, get_command, found_or_null}

module _ (js : Js) (others : String → Action CommandObject) (depth now : ℕ) where
  receive_unknown :
      (name : String) (args : List String) (w : World CommandObject)
      → Dictionary.get commands (js.to_lower_case name) ≡ none
      → receive js others depth now (name ∷ args) w
        ≡ ServerCommands.null (record { command = name; params = args }) w
  unfolding receive get_command execute found_or_null
  receive_unknown name args w unknown = rw unknown refl

  found_exec : js.to_lower_case "exec" ≡ "exec" → get_command js "exec" ≡ CommandObject.exec_command
  unfolding get_command found_or_null Dictionary.get
  found_exec lower = rw lower refl

  unqueued_exec :
      js.to_lower_case "exec" ≡ "exec"
      → is_queueable js (record { command = "exec"; params = [] }) ≡ false
  unfolding is_queueable
  unqueued_exec lower = rw lower refl

  receive-exec :
      (w : World CommandObject)
      → js.to_lower_case "exec" ≡ "exec"
      → is_subscribed w.session ≡ false
      → receive js others (suc depth) now ("exec" ∷ []) w
        ≡ exec (run js others depth) now w.session.current_db w
  unfolding receive execute exec_sync checked check_type run_or_queue wrong_count info_of run
  receive-exec w lower free = elim (Bool-cases (in_transaction w.session)) [
    | inl opened ↦ rw (found_exec lower, free, unqueued_exec lower, opened) refl
    | inr closed ↦ rw (found_exec lower, free, unqueued_exec lower, closed) refl
  ]

  aborts :
      (w : World CommandObject)
      → in_transaction w.session ≡ true
      → exec
          (run js others depth)
          now
          w.session.current_db
          (record w { session = record w.session { errored = true } })
        ≡ (returns (error "EXECABORT Transaction discarded because of previous errors."), closed w)
  unfolding exec in_transaction
  aborts w opened = elim (Option-cases w.session.commands) [
    | inl e ↦ let shut : false ≡ true = rw e at opened in cc
    | inr (queue, e) ↦ rw e refl
  ]

module _ (js : Js) (others : String → Action CommandObject) (depth now later : ℕ)
    (lower : js.to_lower_case "exec" ≡ "exec") where
  -- Where toLowerCase leaves the text exec as it is, and for a session that is in a transaction
  -- and not subscribed: after a message whose command is not in the table, the message exec runs
  -- nothing, whatever was queued; it replies with EXECABORT and closes the transaction.
  pub unknown_aborts :
      (name : String) (args : List String) (w : World CommandObject)
      → Dictionary.get commands (js.to_lower_case name) ≡ none
      → in_transaction w.session ≡ true
      → is_subscribed w.session ≡ false
      → receive js others
          (suc depth)
          later
          ("exec" ∷ [])
          (receive js others (suc depth) now (name ∷ args) w).1
        ≡ (returns (error "EXECABORT Transaction discarded because of previous errors."), closed w)
  unfolding ServerCommands.null set_error
  unknown_aborts name args w unknown opened free =
      let w' = record w { session = record w.session { errored = true } } in
      rw (receive_unknown js others (suc depth) now name args w unknown) (
        receive-exec js others depth later w' lower (unfold is_subscribed in free)
        ∙ aborts js others depth later w opened)
