-- ===== src/Suite.antt =====
-- src/resp/processor/command-suite.ts: the table of the commands, and the fields that the wrapper
-- copies from each of them.
pub mod Plain
pub mod Run
pub mod Soundness
pub mod Depth
pub mod Flat
pub mod Queue
pub mod Reach
pub mod Reading
pub mod Unknown
use unit_redis_ness.Prelude.{ℕ, String, Option, none, some, List, [], ◌∷◌, ◌++◌, false}
use unit_redis_ness.Dictionary
use unit_redis_ness.Dictionary.{Dictionary}
use unit_redis_ness.Processor.{Info}

-- The command objects that use one database and nothing else of the server.
pub data PlainCommand : Type 0 where
  get_command set_command ping_command echo_command quit_command del_command exists_command
        incr_command decr_command hset_command hget_command incrby_command decrby_command
        sadd_command scard_command sismember_command smembers_command smove_command type_command
        expire_command rename_command mset_command lindex_command llen_command rpop_command
        rpush_command getset_command lpop_command lpush_command lset_command lrange_command
        lrem_command ltrim_command mget_command renamenx_command rpoplpush_command sdiff_command
        setnx_command sinter_command sinterstore_command srem_command sunion_command
        sunionstore_command ttl_command hgetall_command pexpire_command zcard_command
        zscore_command :
      PlainCommand

-- The command objects. `other` is one whose class has no model here, with its name and the numbers
-- of parameters that it takes.
pub data CommandObject : Type 0 where
  plain : PlainCommand → CommandObject
  select_command dbsize_command flushdb_command flushall_command move_command multi_command
        discard_command exec_command null_command :
      CommandObject
  other : String → ℕ → Option ℕ → CommandObject

abbrev limits : ℕ → Option ℕ → Info
limits least most = record {
  min_params = least;
  max_params = most;
  data_type = none;
  pub_sub_allowed = false;
}

-- `minParams` and `maxParams` of each class; without them `Number(undefined)` bounds nothing. No
-- class has a field `dataType` or `pubSubAllowed`.
unfoldable pub plain_info : PlainCommand → Info
plain_info get_command = limits 1 (some 1)
plain_info set_command = limits 2 (some 6)
plain_info ping_command = limits 0 (some 0)
plain_info echo_command = limits 1 (some 1)
plain_info quit_command = limits 0 none
plain_info del_command = limits 1 none
plain_info exists_command = limits 1 none
plain_info incr_command = limits 1 (some 1)
plain_info decr_command = limits 1 (some 1)
plain_info hset_command = limits 3 none
plain_info hget_command = limits 2 (some 2)
plain_info incrby_command = limits 2 (some 2)
plain_info decrby_command = limits 2 (some 2)
plain_info sadd_command = limits 2 none
plain_info scard_command = limits 1 (some 1)
plain_info sismember_command = limits 2 (some 2)
plain_info smembers_command = limits 1 (some 1)
plain_info smove_command = limits 3 (some 3)
plain_info type_command = limits 1 (some 1)
plain_info expire_command = limits 2 (some 2)
plain_info rename_command = limits 2 (some 2)
plain_info mset_command = limits 2 none
plain_info lindex_command = limits 2 (some 2)
plain_info llen_command = limits 1 (some 1)
plain_info rpop_command = limits 1 (some 1)
plain_info rpush_command = limits 2 none
plain_info getset_command = limits 2 (some 2)
plain_info lpop_command = limits 1 (some 1)
plain_info lpush_command = limits 2 none
plain_info lset_command = limits 3 (some 3)
plain_info lrange_command = limits 3 (some 3)
plain_info lrem_command = limits 3 (some 3)
plain_info ltrim_command = limits 3 (some 3)
plain_info mget_command = limits 1 none
plain_info renamenx_command = limits 2 (some 2)
plain_info rpoplpush_command = limits 2 (some 2)
plain_info sdiff_command = limits 1 none
plain_info setnx_command = limits 2 (some 2)
plain_info sinter_command = limits 1 none
plain_info sinterstore_command = limits 2 none
plain_info srem_command = limits 2 none
plain_info sunion_command = limits 1 none
plain_info sunionstore_command = limits 2 none
plain_info ttl_command = limits 1 (some 1)
plain_info hgetall_command = limits 1 (some 1)
plain_info pexpire_command = limits 2 (some 2)
plain_info zcard_command = limits 1 (some 1)
plain_info zscore_command = limits 2 (some 2)

unfoldable pub info_of : CommandObject → Info
unfolding plain_info
info_of (plain c) = plain_info c
info_of select_command = limits 1 (some 1)
info_of dbsize_command = limits 0 (some 0)
info_of flushdb_command = limits 0 (some 0)
info_of flushall_command = limits 0 (some 0)
info_of move_command = limits 2 (some 2)
info_of multi_command = limits 0 (some 0)
info_of discard_command = limits 0 (some 0)
info_of exec_command = limits 0 (some 0)
info_of null_command = limits 0 none
info_of (other name least most) = limits least most

-- Each call of `addCommand` puts a command at a new name. BLPOP and BRPOP have the limits of LPOP
-- and RPOP, whose constructors set them on the object itself.

abbrev first_commands : List (String × CommandObject)
first_commands =
    ("info", other "info" 0 (some 1))
    ∷ ("get", plain get_command)
    ∷ ("set", plain set_command)
    ∷ ("ping", plain ping_command)
    ∷ ("echo", plain echo_command)
    ∷ ("quit", plain quit_command)
    ∷ ("time", other "time" 0 (some 0))
    ∷ ("del", plain del_command)
    ∷ ("exists", plain exists_command)
    ∷ ("incr", plain incr_command)
    ∷ ("decr", plain decr_command)
    ∷ ("hset", plain hset_command)
    ∷ ("hget", plain hget_command)
    ∷ ("client", other "client" 1 (some 4))
    ∷ ("select", select_command)
    ∷ ("dbsize", dbsize_command)
    ∷ ("incrby", plain incrby_command)
    ∷ ("decrby", plain decrby_command)
    ∷ ("zadd", other "zadd" 3 none)
    ∷ ("sadd", plain sadd_command)
    ∷ ("scard", plain scard_command)
    ∷ ("sismember", plain sismember_command)
    ∷ ("smembers", plain smembers_command)
    ∷ ("smove", plain smove_command)
    ∷ ("zcard", plain zcard_command)
    ∷ ("zcount", other "zcount" 3 (some 3))
    ∷ ("zincrby", other "zincrby" 3 (some 3))
    ∷ ("zrange", other "zrange" 3 (some 4))
    ∷ ("zrem", other "zrem" 2 none)
    ∷ ("type", plain type_command)
    ∷ []

abbrev second_commands : List (String × CommandObject)
second_commands =
    ("script", other "script" 1 (some 2))
    ∷ ("eval", other "eval" 2 none)
    ∷ ("evalsha", other "evalsha" 2 none)
    ∷ ("expire", plain expire_command)
    ∷ ("rename", plain rename_command)
    ∷ ("flushdb", flushdb_command)
    ∷ ("flushall", flushall_command)
    ∷ ("mset", plain mset_command)
    ∷ ("keys", other "keys" 1 (some 1))
    ∷ ("lindex", plain lindex_command)
    ∷ ("llen", plain llen_command)
    ∷ ("rpop", plain rpop_command)
    ∷ ("rpush", plain rpush_command)
    ∷ ("move", move_command)
    ∷ ("getset", plain getset_command)
    ∷ ("lpop", plain lpop_command)
    ∷ ("lpush", plain lpush_command)
    ∷ ("lset", plain lset_command)
    ∷ ("lrange", plain lrange_command)
    ∷ ("lrem", plain lrem_command)
    ∷ ("zrank", other "zrank" 2 (some 2))
    ∷ ("ltrim", plain ltrim_command)
    ∷ ("mget", plain mget_command)
    ∷ ("randomkey", other "randomkey" 0 (some 0))
    ∷ ("renamenx", plain renamenx_command)
    ∷ ("rpoplpush", plain rpoplpush_command)
    ∷ ("sdiff", plain sdiff_command)
    ∷ ("setnx", plain setnx_command)
    ∷ []

abbrev third_commands : List (String × CommandObject)
third_commands =
    ("sinter", plain sinter_command)
    ∷ ("sinterstore", plain sinterstore_command)
    ∷ ("srem", plain srem_command)
    ∷ ("sunion", plain sunion_command)
    ∷ ("sunionstore", plain sunionstore_command)
    ∷ ("ttl", plain ttl_command)
    ∷ ("brpop", other "brpop" 1 (some 1))
    ∷ ("blpop", other "blpop" 1 (some 1))
    ∷ ("brpoplpush", other "brpoplpush" 3 (some 3))
    ∷ ("multi", multi_command)
    ∷ ("discard", discard_command)
    ∷ ("exec", exec_command)
    ∷ ("publish", other "publish" 2 (some 2))
    ∷ ("subscribe", other "subscribe" 1 none)
    ∷ ("unsubscribe", other "unsubscribe" 1 none)
    ∷ ("hmset", plain hset_command)
    ∷ ("hgetall", plain hgetall_command)
    ∷ ("zrangebyscore", other "zrangebyscore" 3 (some 7))
    ∷ ("zscore", plain zscore_command)
    ∷ ("pexpire", plain pexpire_command)
    ∷ []

abbrev pub commands : Dictionary CommandObject
commands = record { items = first_commands ++ (second_commands ++ third_commands) }
