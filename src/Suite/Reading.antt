-- ===== src/Suite/Reading.antt =====
-- The commands of the suite that only read.
use unit_redis_ness.Prelude.{◌≡◌, Bool, true, false}
use unit_redis_ness.Number.{Js}
use unit_redis_ness.Database.Laws.{SameView}
use unit_redis_ness.Token.{text, response_ok}
use unit_redis_ness.Command.{Request, Store, get_param}
use unit_redis_ness.Command.Reads.{Reads, Reads-pure}
use unit_redis_ness.ServerCommands.{ping, echo, quit}
use unit_redis_ness.Suite.{PlainCommand}
use unit_redis_ness.Suite.Run.{run_plain}
use unit_redis_ness.HashCommands
use unit_redis_ness.KeyCommands.Lifetime
use unit_redis_ness.KeyCommands.Names
use unit_redis_ness.ListCommands.Index
use unit_redis_ness.ListCommands.Pop
use unit_redis_ness.ListCommands.Range
use unit_redis_ness.SetCommands
use unit_redis_ness.SetCommands.Several
use unit_redis_ness.SortedSetCommands
use unit_redis_ness.StringCommands.Basic

abbrev pub is_reading : PlainCommand → Bool
is_reading PlainCommand.get_command = true
is_reading PlainCommand.ping_command = true
is_reading PlainCommand.echo_command = true
is_reading PlainCommand.quit_command = true
is_reading PlainCommand.exists_command = true
is_reading PlainCommand.hget_command = true
is_reading PlainCommand.scard_command = true
is_reading PlainCommand.sismember_command = true
is_reading PlainCommand.smembers_command = true
is_reading PlainCommand.type_command = true
is_reading PlainCommand.lindex_command = true
is_reading PlainCommand.llen_command = true
is_reading PlainCommand.lrange_command = true
is_reading PlainCommand.mget_command = true
is_reading PlainCommand.sdiff_command = true
is_reading PlainCommand.sinter_command = true
is_reading PlainCommand.sunion_command = true
is_reading PlainCommand.ttl_command = true
is_reading PlainCommand.hgetall_command = true
is_reading PlainCommand.zcard_command = true
is_reading PlainCommand.zscore_command = true
is_reading _ = false

module _ (js : Js) where
  run_plain-Reads :
      (c : PlainCommand) (r : Request) → is_reading c ≡ true → Reads r (run_plain js c r)
  unfolding run_plain ping echo quit
  run_plain-Reads PlainCommand.get_command r reading = Basic.Reading.get_command-Reads r
  run_plain-Reads PlainCommand.set_command r reading = cc
  run_plain-Reads PlainCommand.ping_command r reading = Reads-pure (text "PONG")
  run_plain-Reads PlainCommand.echo_command r reading = Reads-pure (text (get_param r 0))
  run_plain-Reads PlainCommand.quit_command r reading = Reads-pure response_ok
  run_plain-Reads PlainCommand.del_command r reading = cc
  run_plain-Reads PlainCommand.exists_command r reading = Names.Reading.exists-Reads r
  run_plain-Reads PlainCommand.incr_command r reading = cc
  run_plain-Reads PlainCommand.decr_command r reading = cc
  run_plain-Reads PlainCommand.hset_command r reading = cc
  run_plain-Reads PlainCommand.hget_command r reading = HashCommands.Reading.hget-Reads r
  run_plain-Reads PlainCommand.incrby_command r reading = cc
  run_plain-Reads PlainCommand.decrby_command r reading = cc
  run_plain-Reads PlainCommand.sadd_command r reading = cc
  run_plain-Reads PlainCommand.scard_command r reading = SetCommands.Reading.scard-Reads r
  run_plain-Reads PlainCommand.sismember_command r reading = SetCommands.Reading.sismember-Reads r
  run_plain-Reads PlainCommand.smembers_command r reading = SetCommands.Reading.smembers-Reads r
  run_plain-Reads PlainCommand.smove_command r reading = cc
  run_plain-Reads PlainCommand.type_command r reading = Names.Reading.type-Reads r
  run_plain-Reads PlainCommand.expire_command r reading = cc
  run_plain-Reads PlainCommand.rename_command r reading = cc
  run_plain-Reads PlainCommand.mset_command r reading = cc
  run_plain-Reads PlainCommand.lindex_command r reading = Index.Reading.lindex-Reads js r
  run_plain-Reads PlainCommand.llen_command r reading = Pop.Reading.llen-Reads r
  run_plain-Reads PlainCommand.rpop_command r reading = cc
  run_plain-Reads PlainCommand.rpush_command r reading = cc
  run_plain-Reads PlainCommand.getset_command r reading = cc
  run_plain-Reads PlainCommand.lpop_command r reading = cc
  run_plain-Reads PlainCommand.lpush_command r reading = cc
  run_plain-Reads PlainCommand.lset_command r reading = cc
  run_plain-Reads PlainCommand.lrange_command r reading = Range.Reading.lrange-Reads js r
  run_plain-Reads PlainCommand.lrem_command r reading = cc
  run_plain-Reads PlainCommand.ltrim_command r reading = cc
  run_plain-Reads PlainCommand.mget_command r reading = Basic.Reading.mget-Reads r
  run_plain-Reads PlainCommand.renamenx_command r reading = cc
  run_plain-Reads PlainCommand.rpoplpush_command r reading = cc
  run_plain-Reads PlainCommand.sdiff_command r reading = Several.Reading.sdiff-Reads r
  run_plain-Reads PlainCommand.setnx_command r reading = cc
  run_plain-Reads PlainCommand.sinter_command r reading = Several.Reading.sinter-Reads r
  run_plain-Reads PlainCommand.sinterstore_command r reading = cc
  run_plain-Reads PlainCommand.srem_command r reading = cc
  run_plain-Reads PlainCommand.sunion_command r reading = Several.Reading.sunion-Reads r
  run_plain-Reads PlainCommand.sunionstore_command r reading = cc
  run_plain-Reads PlainCommand.ttl_command r reading = Lifetime.Reading.ttl-Reads r
  run_plain-Reads PlainCommand.hgetall_command r reading = HashCommands.Reading.hgetall-Reads r
  run_plain-Reads PlainCommand.pexpire_command r reading = cc
  run_plain-Reads PlainCommand.zcard_command r reading = SortedSetCommands.Reading.zcard-Reads r
  run_plain-Reads PlainCommand.zscore_command r reading =
      SortedSetCommands.Reading.zscore-Reads js r

  -- GET, MGET, EXISTS, TYPE, TTL, LLEN, LINDEX, LRANGE, SCARD, SISMEMBER, SMEMBERS, SDIFF,
  -- SUNION, SINTER, HGET, HGETALL, ZCARD, ZSCORE, PING, ECHO and QUIT, with any parameters and
  -- on any database, leave at every key what a client could see there at the time of the
  -- request, whether they reply or throw; an entry that has lapsed may go.
  pub run_plain-SameView :
      (c : PlainCommand) (r : Request) (s : Store)
      → is_reading c ≡ true
      → SameView r.now s.db (run_plain js c r s).1.db
  run_plain-SameView c r s reading = (run_plain-Reads c r reading).run s
