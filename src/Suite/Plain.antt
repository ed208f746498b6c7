-- ===== src/Suite/Plain.antt =====
-- The commands of the suite that use one database keep the data sound.
use unit_redis_ness.Prelude.{pos, negsuc}
use unit_redis_ness.Number.{Js}
use unit_redis_ness.Token.{text, response_ok}
use unit_redis_ness.Command.{Request, get_param}
use unit_redis_ness.ServerCommands.{ping, echo, quit}
use unit_redis_ness.Suite.{PlainCommand}
use unit_redis_ness.Suite.Run.{run_plain}
use unit_redis_ness.Soundness.{Sound, Any, Sound-pure}
use unit_redis_ness.StringCommands.Basic
use unit_redis_ness.StringCommands.Options
use unit_redis_ness.KeyCommands.Names
use unit_redis_ness.StringCommands.Counter
use unit_redis_ness.HashCommands
use unit_redis_ness.SetCommands
use unit_redis_ness.SetCommands.Several
use unit_redis_ness.KeyCommands.Lifetime
use unit_redis_ness.ListCommands.Index
use unit_redis_ness.ListCommands.Pop
use unit_redis_ness.ListCommands.Push
use unit_redis_ness.ListCommands.Range
use unit_redis_ness.ListCommands.Rem
use unit_redis_ness.SortedSetCommands

ping-Sound : (r : Request) → Sound Any (ping r)
unfolding ping
ping-Sound r = Sound-pure (text "PONG") tt

echo-Sound : (r : Request) → Sound Any (echo r)
unfolding echo
echo-Sound r = Sound-pure (text (get_param r 0)) tt

quit-Sound : (r : Request) → Sound Any (quit r)
unfolding quit
quit-Sound r = Sound-pure response_ok tt

module _ (js : Js) where
  pub run_plain-Sound : (c : PlainCommand) (r : Request) → Sound Any (run_plain js c r)
  unfolding run_plain
  run_plain-Sound PlainCommand.get_command r = Basic.Soundness.get_command-Sound r
  run_plain-Sound PlainCommand.set_command r = Options.Soundness.set-Sound js r
  run_plain-Sound PlainCommand.ping_command r = ping-Sound r
  run_plain-Sound PlainCommand.echo_command r = echo-Sound r
  run_plain-Sound PlainCommand.quit_command r = quit-Sound r
  run_plain-Sound PlainCommand.del_command r = Names.Soundness.del-Sound r
  run_plain-Sound PlainCommand.exists_command r = Names.Soundness.exists-Sound r
  run_plain-Sound PlainCommand.incr_command r = Counter.Soundness.incr-Sound js (pos 1) r
  run_plain-Sound PlainCommand.decr_command r = Counter.Soundness.incr-Sound js (negsuc 0) r
  run_plain-Sound PlainCommand.hset_command r = HashCommands.Soundness.hset-Sound r
  run_plain-Sound PlainCommand.hget_command r = HashCommands.Soundness.hget-Sound r
  run_plain-Sound PlainCommand.incrby_command r = Counter.Soundness.incrby-Sound js (pos 1) r
  run_plain-Sound PlainCommand.decrby_command r = Counter.Soundness.incrby-Sound js (negsuc 0) r
  run_plain-Sound PlainCommand.sadd_command r = SetCommands.Soundness.sadd-Sound r
  run_plain-Sound PlainCommand.scard_command r = SetCommands.Soundness.scard-Sound r
  run_plain-Sound PlainCommand.sismember_command r = SetCommands.Soundness.sismember-Sound r
  run_plain-Sound PlainCommand.smembers_command r = SetCommands.Soundness.smembers-Sound r
  run_plain-Sound PlainCommand.smove_command r = Several.Soundness.smove-Sound r
  run_plain-Sound PlainCommand.type_command r = Names.Soundness.type-Sound r
  run_plain-Sound PlainCommand.expire_command r = Lifetime.Soundness.expire-Sound js r
  run_plain-Sound PlainCommand.rename_command r = Names.Soundness.rename-Sound r
  run_plain-Sound PlainCommand.mset_command r = Basic.Soundness.mset-Sound r
  run_plain-Sound PlainCommand.lindex_command r = Index.Soundness.lindex-Sound js r
  run_plain-Sound PlainCommand.llen_command r = Pop.Soundness.llen-Sound r
  run_plain-Sound PlainCommand.rpop_command r = Pop.Soundness.rpop-Sound r
  run_plain-Sound PlainCommand.rpush_command r = Push.Soundness.rpush-Sound r
  run_plain-Sound PlainCommand.getset_command r = Basic.Soundness.getset-Sound r
  run_plain-Sound PlainCommand.lpop_command r = Pop.Soundness.lpop-Sound r
  run_plain-Sound PlainCommand.lpush_command r = Push.Soundness.lpush-Sound r
  run_plain-Sound PlainCommand.lset_command r = Index.Soundness.lset-Sound js r
  run_plain-Sound PlainCommand.lrange_command r = Range.Soundness.lrange-Sound js r
  run_plain-Sound PlainCommand.lrem_command r = Rem.Soundness.lrem-Sound js r
  run_plain-Sound PlainCommand.ltrim_command r = Range.Soundness.ltrim-Sound js r
  run_plain-Sound PlainCommand.mget_command r = Basic.Soundness.mget-Sound r
  run_plain-Sound PlainCommand.renamenx_command r = Names.Soundness.renamenx-Sound r
  run_plain-Sound PlainCommand.rpoplpush_command r = Pop.Soundness.rpoplpush-Sound r
  run_plain-Sound PlainCommand.sdiff_command r = Several.Soundness.sdiff-Sound r
  run_plain-Sound PlainCommand.setnx_command r = Basic.Soundness.setnx-Sound r
  run_plain-Sound PlainCommand.sinter_command r = Several.Soundness.sinter-Sound r
  run_plain-Sound PlainCommand.sinterstore_command r = Several.Soundness.sinterstore-Sound r
  run_plain-Sound PlainCommand.srem_command r = SetCommands.Soundness.srem-Sound r
  run_plain-Sound PlainCommand.sunion_command r = Several.Soundness.sunion-Sound r
  run_plain-Sound PlainCommand.sunionstore_command r = Several.Soundness.sunionstore-Sound r
  run_plain-Sound PlainCommand.ttl_command r = Lifetime.Soundness.ttl-Sound r
  run_plain-Sound PlainCommand.hgetall_command r = HashCommands.Soundness.hgetall-Sound r
  run_plain-Sound PlainCommand.pexpire_command r = Lifetime.Soundness.pexpire-Sound js r
  run_plain-Sound PlainCommand.zcard_command r = SortedSetCommands.Soundness.zcard-Sound r
  run_plain-Sound PlainCommand.zscore_command r = SortedSetCommands.Soundness.zscore-Sound js r
