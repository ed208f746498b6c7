-- ===== src/Suite/Reach.antt =====
-- The runs of the server with one client: the worlds that its messages lead to.
use unit_redis_ness.Prelude.{ℕ, zero, suc, String, none, List, []}
use unit_redis_ness.Number.{Js}
use unit_redis_ness.Session.{Call, new_session}
use unit_redis_ness.World.{World, get_database, Action}
use unit_redis_ness.World.Soundness.{IsSoundWorld, on_database-IsSoundWorld}
use unit_redis_ness.DatabaseCommands.{flushdb, flushall, dbsize}
use unit_redis_ness.DatabaseCommands.Soundness.{
  flush_from-IsSoundWorld, flushdb-IsSoundWorld, select-IsSoundWorld, move-IsSoundWorld,
}
use unit_redis_ness.Processor.{exec_sync}
use unit_redis_ness.Suite.{CommandObject, info_of}
use unit_redis_ness.Suite.Run.{run, run_plain, execute, receive, get_command, parse_array}
use unit_redis_ness.Suite.Plain.{run_plain-Sound}
use unit_redis_ness.Suite.Soundness.{
  KeepsSound, multi-IsSoundWorld, discard-IsSoundWorld, null-IsSoundWorld, exec-IsSoundWorld,
  exec_sync-IsSoundWorld,
}

module _ (js : Js) (others : String → Action CommandObject)
    (keeps : (name : String) → KeepsSound (others name)) where
  run-KeepsSound : (depth : ℕ) (c : CommandObject) → KeepsSound (run js others depth c)
  unfolding run dbsize flushdb flushall
  run-KeepsSound depth (CommandObject.plain c) now call id w h =
      on_database-IsSoundWorld (run_plain js c) (run_plain-Sound js c) now call id w h
  run-KeepsSound depth CommandObject.select_command now call id w h =
      select-IsSoundWorld js call w h
  run-KeepsSound depth CommandObject.dbsize_command now call id w h = h
  run-KeepsSound depth CommandObject.flushdb_command now call id w h = flushdb-IsSoundWorld id w h
  run-KeepsSound depth CommandObject.flushall_command now call id w h =
      flush_from-IsSoundWorld 16 0 w h
  run-KeepsSound depth CommandObject.move_command now call id w h =
      move-IsSoundWorld js now call id w h
  run-KeepsSound depth CommandObject.multi_command now call id w h = multi-IsSoundWorld w h
  run-KeepsSound depth CommandObject.discard_command now call id w h = discard-IsSoundWorld w h
  run-KeepsSound zero CommandObject.exec_command now call id w h = h
  run-KeepsSound (suc depth) CommandObject.exec_command now call id w h =
      exec-IsSoundWorld (run js others depth) (run-KeepsSound depth) now id w h
  run-KeepsSound depth CommandObject.null_command now call id w h = null-IsSoundWorld call w h
  run-KeepsSound depth (CommandObject.other name least most) now call id w h =
      keeps name now call id w h

  wrapped-IsSoundWorld :
      (depth : ℕ) (c : CommandObject) (now : ℕ) (call : Call) (w : World CommandObject)
      → IsSoundWorld w
      → IsSoundWorld (exec_sync js info_of (run js others depth) c now call w).1
  wrapped-IsSoundWorld depth =
      exec_sync-IsSoundWorld (run js others depth) (run-KeepsSound depth) js info_of

  execute-IsSoundWorld :
      (depth : ℕ) (c : CommandObject) (now : ℕ) (call : Call) (w : World CommandObject)
      → IsSoundWorld w
      → IsSoundWorld (execute js others depth c now call w).1
  unfolding execute
  execute-IsSoundWorld depth (CommandObject.plain p) now call w h =
      wrapped-IsSoundWorld depth (CommandObject.plain p) now call w h
  execute-IsSoundWorld depth CommandObject.select_command now call w h =
      wrapped-IsSoundWorld depth CommandObject.select_command now call w h
  execute-IsSoundWorld depth CommandObject.dbsize_command now call w h =
      wrapped-IsSoundWorld depth CommandObject.dbsize_command now call w h
  execute-IsSoundWorld depth CommandObject.flushdb_command now call w h =
      wrapped-IsSoundWorld depth CommandObject.flushdb_command now call w h
  execute-IsSoundWorld depth CommandObject.flushall_command now call w h =
      wrapped-IsSoundWorld depth CommandObject.flushall_command now call w h
  execute-IsSoundWorld depth CommandObject.move_command now call w h =
      wrapped-IsSoundWorld depth CommandObject.move_command now call w h
  execute-IsSoundWorld depth CommandObject.multi_command now call w h =
      wrapped-IsSoundWorld depth CommandObject.multi_command now call w h
  execute-IsSoundWorld depth CommandObject.discard_command now call w h =
      wrapped-IsSoundWorld depth CommandObject.discard_command now call w h
  execute-IsSoundWorld depth CommandObject.exec_command now call w h =
      wrapped-IsSoundWorld depth CommandObject.exec_command now call w h
  execute-IsSoundWorld depth (CommandObject.other name least most) now call w h =
      wrapped-IsSoundWorld depth (CommandObject.other name least most) now call w h
  execute-IsSoundWorld depth CommandObject.null_command now call w h = null-IsSoundWorld call w h

  pub receive-IsSoundWorld :
      (depth now : ℕ) (message : List String) (w : World CommandObject)
      → IsSoundWorld w
      → IsSoundWorld (receive js others depth now message w).1
  unfolding receive
  receive-IsSoundWorld depth now message w h =
      let call = parse_array message in
      execute-IsSoundWorld depth (get_command js call.command) now call w h

-- The server when it starts, with a new client.
abbrev pub started : World CommandObject
started = record { databases = λ n. none; session = new_session; emitted = [] }

-- The worlds that a client can bring about: each message is received at a time of its own.
pub data Reaches (js : Js) (others : String → Action CommandObject) (depth : ℕ)
    : World CommandObject → Type 0 where
  start : Reaches js others depth started
  after :
      (now : ℕ) (message : List String) (w : World CommandObject)
      → Reaches js others depth w
      → Reaches js others depth (receive js others depth now message w).1

started-IsSoundWorld : IsSoundWorld started
unfolding get_database
started-IsSoundWorld n = (tt, tt)

module _ (js : Js) (others : String → Action CommandObject)
    (keeps : (name : String) → KeepsSound (others name)) (depth : ℕ) where
  -- The lists of the model stand for what JavaScript has: in every world that is reached, each
  -- database has one entry for a key, a stored set has each member once, and a stored hash one
  -- value for a field.
  pub Reaches-IsSoundWorld : {w : World CommandObject} → Reaches js others depth w → IsSoundWorld w
  Reaches-IsSoundWorld start = started-IsSoundWorld
  Reaches-IsSoundWorld (after now message w before) =
      receive-IsSoundWorld js others keeps depth now message w (Reaches-IsSoundWorld before)
