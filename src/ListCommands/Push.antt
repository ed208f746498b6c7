-- ===== src/ListCommands/Push.antt =====
-- src/resp/command/list: lpush-command.ts, rpush-command.ts and llen-command.ts.
pub mod Laws
pub mod Soundness
use unit_redis_ness.Prelude.{
  ℕ, ◌+◌, ◌-◌, ◌≤◌, String, ◌≡◌, ◌≢◌, refl, Option, none, some, List, [], ◌∷◌, ◌++◌, length, drop,
  reverse, arith, eq_iff,
}
use unit_redis_ness.Outcome.{returns}
use unit_redis_ness.DatabaseValue.{DatabaseValue, list, of_payload, get_list}
use unit_redis_ness.Database.Laws.{view, get-view, view-get, view-put}
use unit_redis_ness.Token.{Token, count}
use unit_redis_ness.Command.{
  Request, get_param, Store, Command, ◌>>=◌, ◌>>◌, pure, lift, get, put, emit, repeated, key_event,
}

-- `if (!list) list = new DatabaseValue(DataType.LIST, [])`
abbrev pub or_new_list : Option DatabaseValue → DatabaseValue
or_new_list none = of_payload (list [])
or_new_list (some v) = v

-- One `unshift` for each element.
unfoldable pub unshift_all : List String → List String → List String
unshift_all [] xs = xs
unshift_all (e ∷ es) xs = unshift_all es (e ∷ xs)

-- One `push` for each element.
unfoldable pub push_all : List String → List String → List String
push_all [] xs = xs
push_all (e ∷ es) xs = push_all es (xs ++ e ∷ [])

unfoldable pub lpush : Request → Command Token
lpush r = do
  let key = get_param r 0
  found ← get r key
  let value = or_new_list found
  old ← lift (get_list value)
  let xs = unshift_all (drop 1 r.params) old
  put key (record value { value = list xs })
  emit (repeated (length r.params - 1) (key_event r.current_db "lpush" key))
  pure (count (length xs))

unfoldable pub rpush : Request → Command Token
rpush r = do
  let key = get_param r 0
  found ← get r key
  let value = or_new_list found
  old ← lift (get_list value)
  let xs = push_all (drop 1 r.params) old
  put key (record value { value = list xs })
  emit (repeated (length r.params - 1) (key_event r.current_db "rpush" key))
  pure (count (length xs))
