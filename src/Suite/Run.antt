-- ===== src/Suite/Run.antt =====
-- src/resp/processor/command-suite.ts and src/server/resp-server.ts: the commands at work, from the
-- parsed message to the reply.
use unit_redis_ness.Prelude.{ℕ, zero, suc, String, Option, none, some, List, [], ◌∷◌, pos, negsuc}
use unit_redis_ness.Number.{Js}
use unit_redis_ness.Outcome.{Outcome, returns, throws}
use unit_redis_ness.Token.{Token}
use unit_redis_ness.Command.{Request, Command}
use unit_redis_ness.Protocol.{serialize}
use unit_redis_ness.Session.{Call}
use unit_redis_ness.World.{World, Action, on_database}
use unit_redis_ness.StringCommands.Basic
use unit_redis_ness.StringCommands.Counter
use unit_redis_ness.StringCommands.Options
use unit_redis_ness.KeyCommands.Names
use unit_redis_ness.KeyCommands.Lifetime
use unit_redis_ness.ListCommands.Index
use unit_redis_ness.ListCommands.Pop
use unit_redis_ness.ListCommands.Push
use unit_redis_ness.ListCommands.Range
use unit_redis_ness.ListCommands.Rem
use unit_redis_ness.SetCommands
use unit_redis_ness.SetCommands.Several
use unit_redis_ness.HashCommands
use unit_redis_ness.ServerCommands
use unit_redis_ness.SortedSetCommands
use unit_redis_ness.DatabaseCommands.{select, dbsize, flushdb, flushall, move}
use unit_redis_ness.Transaction.{multi, discard, exec}
use unit_redis_ness.Processor.{exec_sync}
use unit_redis_ness.Suite.{PlainCommand, CommandObject, info_of, commands, null_command}
use unit_redis_ness.Dictionary
use unit_redis_ness.Dictionary.{Dictionary}

-- `params.shift() || ""`
abbrev pub parse_array : List String → Call
parse_array [] = record { command = ""; params = [] }
parse_array (command ∷ params) = record { command = command; params = params }

unfoldable pub found_or_null : Option CommandObject → CommandObject
found_or_null none = null_command
found_or_null (some c) = c

unfoldable pub get_command : Js → String → CommandObject
unfolding found_or_null
get_command js name = found_or_null (Dictionary.get commands (js.to_lower_case name))

module _ (js : Js) where
  unfoldable pub run_plain : PlainCommand → Request → Command Token
  run_plain PlainCommand.get_command = Basic.get_command
  run_plain PlainCommand.set_command = Options.set js
  run_plain PlainCommand.ping_command = ServerCommands.ping
  run_plain PlainCommand.echo_command = ServerCommands.echo
  run_plain PlainCommand.quit_command = ServerCommands.quit
  run_plain PlainCommand.del_command = Names.del
  run_plain PlainCommand.exists_command = Names.exists
  run_plain PlainCommand.incr_command = Counter.incr js (pos 1)
  run_plain PlainCommand.decr_command = Counter.incr js (negsuc 0)
  run_plain PlainCommand.hset_command = HashCommands.hset
  run_plain PlainCommand.hget_command = HashCommands.hget
  run_plain PlainCommand.incrby_command = Counter.incrby js (pos 1)
  run_plain PlainCommand.decrby_command = Counter.incrby js (negsuc 0)
  run_plain PlainCommand.sadd_command = SetCommands.sadd
  run_plain PlainCommand.scard_command = SetCommands.scard
  run_plain PlainCommand.sismember_command = SetCommands.sismember
  run_plain PlainCommand.smembers_command = SetCommands.smembers
  run_plain PlainCommand.smove_command = Several.smove
  run_plain PlainCommand.type_command = Names.type
  run_plain PlainCommand.expire_command = Lifetime.expire js
  run_plain PlainCommand.rename_command = Names.rename
  run_plain PlainCommand.mset_command = Basic.mset
  run_plain PlainCommand.lindex_command = Index.lindex js
  run_plain PlainCommand.llen_command = Pop.llen
  run_plain PlainCommand.rpop_command = Pop.rpop
  run_plain PlainCommand.rpush_command = Push.rpush
  run_plain PlainCommand.getset_command = Basic.getset
  run_plain PlainCommand.lpop_command = Pop.lpop
  run_plain PlainCommand.lpush_command = Push.lpush
  run_plain PlainCommand.lset_command = Index.lset js
  run_plain PlainCommand.lrange_command = Range.lrange js
  run_plain PlainCommand.lrem_command = Rem.lrem js
  run_plain PlainCommand.ltrim_command = Range.ltrim js
  run_plain PlainCommand.mget_command = Basic.mget
  run_plain PlainCommand.renamenx_command = Names.renamenx
  run_plain PlainCommand.rpoplpush_command = Pop.rpoplpush
  run_plain PlainCommand.sdiff_command = Several.sdiff
  run_plain PlainCommand.setnx_command = Basic.setnx
  run_plain PlainCommand.sinter_command = Several.sinter
  run_plain PlainCommand.sinterstore_command = Several.sinterstore
  run_plain PlainCommand.srem_command = SetCommands.srem
  run_plain PlainCommand.sunion_command = Several.sunion
  run_plain PlainCommand.sunionstore_command = Several.sunionstore
  run_plain PlainCommand.ttl_command = Lifetime.ttl
  run_plain PlainCommand.hgetall_command = HashCommands.hgetall
  run_plain PlainCommand.pexpire_command = Lifetime.pexpire js
  run_plain PlainCommand.zcard_command = SortedSetCommands.zcard
  run_plain PlainCommand.zscore_command = SortedSetCommands.zscore js

  -- `others` runs the commands that have no model. An EXEC that is queued in a transaction runs
  -- inside another one: the fuel is the depth, and the stack ends at 0.
  module _ (others : String → Action CommandObject) where
    unfoldable pub run : ℕ → CommandObject → Action CommandObject
    unfolding run_plain
    run depth (CommandObject.plain c) now call id w = on_database (run_plain c) now call id w
    run depth CommandObject.select_command now call id w = select js call w
    run depth CommandObject.dbsize_command now call id w = dbsize id w
    run depth CommandObject.flushdb_command now call id w = flushdb id w
    run depth CommandObject.flushall_command now call id w = flushall w
    run depth CommandObject.move_command now call id w = move js now call id w
    run depth CommandObject.multi_command now call id w = multi w
    run depth CommandObject.discard_command now call id w = discard w
    run zero CommandObject.exec_command now call id w =
        (throws "Maximum call stack size exceeded", w)
    run (suc depth) CommandObject.exec_command now call id w = exec (run depth) now id w
    run depth CommandObject.null_command now call id w = ServerCommands.null call w
    run depth (CommandObject.other name least most) now call id w = others name now call id w

    -- `execcommand.execSync(request)`: the null command stands in no wrapper.
    unfoldable pub execute :
        ℕ → CommandObject → ℕ → Call → World CommandObject → Outcome Token × World CommandObject
    unfolding run
    execute depth CommandObject.null_command now call w = ServerCommands.null call w
    execute depth c now call w = exec_sync js info_of (run depth) c now call w

    -- What `receive` makes of one message that the parser has read.
    unfoldable pub receive :
        ℕ → ℕ → List String → World CommandObject → Outcome Token × World CommandObject
    unfolding execute
    receive depth now message w =
        let call = parse_array message in execute depth (get_command js call.command) now call w

-- What is written to the socket; a command that throws is never answered.
abbrev pub published : Js → Outcome Token → Option String
published js (returns t) = some (serialize js t)
published js (throws m) = none
