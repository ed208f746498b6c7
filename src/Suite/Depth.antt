-- ===== src/Suite/Depth.antt =====
-- EXEC and its queue: no EXEC is ever queued, so that one level of the fuel is enough.
use package.text.Mathlib.Text.{find?}
use unit_redis_ness.Prelude.{
  ℕ, suc, String, ◌≡◌, refl, Bool, true, false, not, ◌&&◌, ◌||◌, Option, none, some, List, [], ◌∷◌,
  Option-cases, inl, inr, arith, eq_iff,
}
use unit_redis_ness.Number.{Number, Js}
use unit_redis_ness.Dictionary
use unit_redis_ness.Dictionary.{lookup}
use unit_redis_ness.Session.{Call, get_transaction}
use unit_redis_ness.World.{World, Action}
use unit_redis_ness.Processor.{exec_sync, checked, check_type, run_or_queue, is_queueable}
use unit_redis_ness.Transaction.{exec, run_all}
use unit_redis_ness.Suite.{CommandObject, info_of, commands}
use unit_redis_ness.Suite.Run.{run, execute, receive, get_command, found_or_null, parse_array}

abbrev pub is_exec : CommandObject → Bool
is_exec CommandObject.exec_command = true
is_exec _ = false

abbrev pub NoExec : List (CommandObject × Call) → Type 0
NoExec [] = Unit
NoExec ((c, call) ∷ queue) = (is_exec c ≡ false) × NoExec queue

abbrev pub HasNoExec : Option (List (CommandObject × Call)) → Type 0
HasNoExec none = Unit
HasNoExec (some queue) = NoExec queue

-- The transaction of the session, if there is one, holds no EXEC.
abbrev pub IsFlat : World CommandObject → Type 0
IsFlat w = HasNoExec w.session.commands

module _ (js : Js) (others : String → Action CommandObject) (now : ℕ) where
  run_depth :
      (d e : ℕ) (c : CommandObject) (call : Call) (id : Number) (w : World CommandObject)
      → is_exec c ≡ false
      → run js others d c now call id w ≡ run js others e c now call id w
  unfolding run
  run_depth d e (CommandObject.plain c) call id w h = refl
  run_depth d e CommandObject.select_command call id w h = refl
  run_depth d e CommandObject.dbsize_command call id w h = refl
  run_depth d e CommandObject.flushdb_command call id w h = refl
  run_depth d e CommandObject.flushall_command call id w h = refl
  run_depth d e CommandObject.move_command call id w h = refl
  run_depth d e CommandObject.multi_command call id w h = refl
  run_depth d e CommandObject.discard_command call id w h = refl
  run_depth d e CommandObject.exec_command call id w h = cc
  run_depth d e CommandObject.null_command call id w h = refl
  run_depth d e (CommandObject.other name least most) call id w h = refl

  run_all-depth :
      (d e : ℕ) (id : Number) (queue : List (CommandObject × Call)) (w : World CommandObject)
      → NoExec queue
      → run_all (run js others d) now id queue w ≡ run_all (run js others e) now id queue w
  unfolding run_all
  run_all-depth d e id [] w h = refl
  run_all-depth d e id ((c, call) ∷ queue) w h =
      let w' = (run js others e c now call id w).1 in
      rw (run_depth d e c call id w h.0, run_all-depth d e id queue w' h.1) refl

  exec-depth :
      (d e : ℕ) (id : Number) (w : World CommandObject)
      → IsFlat w
      → exec (run js others d) now id w ≡ exec (run js others e) now id w
  unfolding exec get_transaction
  exec-depth d e id w h = elim (Option-cases w.session.commands) [
    | inl e ↦ rw e refl
    | inr (queue, held) ↦
        rw
          (
            held,
            run_all-depth d e id queue (record w { session = record w.session { commands = none } })
                (rw held at h),
          )
          refl
  ]

  execute-depth :
      (d e : ℕ) (c : CommandObject) (call : Call) (w : World CommandObject)
      → IsFlat w
      → execute js others (suc d) c now call w ≡ execute js others (suc e) c now call w
  unfolding execute exec_sync checked run_or_queue check_type run info_of
  execute-depth d e (CommandObject.plain c) call w h = refl
  execute-depth d e CommandObject.select_command call w h = refl
  execute-depth d e CommandObject.dbsize_command call w h = refl
  execute-depth d e CommandObject.flushdb_command call w h = refl
  execute-depth d e CommandObject.flushall_command call w h = refl
  execute-depth d e CommandObject.move_command call w h = refl
  execute-depth d e CommandObject.multi_command call w h = refl
  execute-depth d e CommandObject.discard_command call w h = refl
  execute-depth d e CommandObject.exec_command call w h =
      rw (exec-depth d e w.session.current_db w h) refl
  execute-depth d e CommandObject.null_command call w h = refl
  execute-depth d e (CommandObject.other name least most) call w h = refl

  -- receive depth
  pub receive-depth :
      (d : ℕ) (message : List String) (w : World CommandObject)
      → IsFlat w
      → receive js others (suc d) now message w ≡ receive js others 1 now message w
  unfolding receive
  receive-depth d message w h =
      let call = parse_array message in execute-depth d 0 (get_command js call.command) call w h

-- The name of EXEC is one of those that the wrapper does not queue.
found_in : Option ℕ → Bool
found_in none = false
found_in (some _) = true

agrees : String → CommandObject → Bool
unfolding found_in
agrees name c = not (is_exec c) || found_in (find? "exec discard multi" name)

all_agree : List (String × CommandObject) → Bool
unfolding agrees
all_agree [] = true
all_agree ((name, c) ∷ m) = let rest = all_agree m in agrees name c && rest

commands_agree : all_agree commands.items ≡ true
unfolding all_agree
commands_agree = refl

lookup-agrees :
    (name : String) (c : CommandObject) (m : List (String × CommandObject))
    → all_agree m ≡ true
    → lookup name m ≡ some c
    → agrees name c ≡ true
unfolding all_agree lookup
lookup-agrees name c [] h e = cc
lookup-agrees name c ((n, b) ∷ m) h e = ground (arith, lookup-agrees name c m, eq_iff n name)

not_exec :
    (b : Bool) (o : Option ℕ)
    → (elim o as (λ _. Bool) [ none ↦ true | some _ ↦ false ]) ≡ true
    → (not b || found_in o) ≡ true
    → b ≡ false
unfolding found_in
not_exec false o absent agree = refl
not_exec true none absent agree = cc
not_exec true (some n) absent agree = cc

found-is_exec :
    (name : String) (o : Option CommandObject)
    → ((c : CommandObject) → o ≡ some c → agrees name c ≡ true)
    → (elim (find? "exec discard multi" name) as (λ _. Bool) [ none ↦ true | some _ ↦ false ])
      ≡ true
    → is_exec (found_or_null o) ≡ false
unfolding agrees found_or_null
found-is_exec name none agree absent = refl
found-is_exec name (some c) agree absent =
    not_exec (is_exec c) (find? "exec discard multi" name) absent (agree c refl)

pub queued-is_exec :
    (js : Js) (call : Call)
    → is_queueable js call ≡ true
    → is_exec (get_command js call.command) ≡ false
unfolding get_command is_queueable Dictionary.get
queued-is_exec js call h =
    let name = js.to_lower_case call.command in
    found-is_exec name (lookup name commands.items)
      (λ c. lookup-agrees name c commands.items commands_agree) h
