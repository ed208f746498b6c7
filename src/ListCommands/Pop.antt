-- ===== src/ListCommands/Pop.antt =====
-- src/resp/command/list: llen-command.ts, lpop-command.ts, rpop-command.ts and
-- rpoplpush-command.ts.
pub mod Laws
pub mod Transfer
pub mod Reading
pub mod Soundness
use unit_redis_ness.Prelude.{
  ℕ, String, Bool, true, false, not, Option, none, some, List, [], ◌∷◌, ◌++◌, length, ◌==◌,
  if◌then◌else◌,
}
use unit_redis_ness.Number.{Number}
use unit_redis_ness.DatabaseValue.{DatabaseValue, list, of_payload, get_list}
use unit_redis_ness.Token.{Token, count, null_string, string}
use unit_redis_ness.Command.{
  Event, Request, get_param, Store, Command, ◌>>=◌, ◌>>◌, pure, lift, get, put, remove, emit,
  key_event,
}
use unit_redis_ness.ListCommands.Push.{or_new_list}
use unit_redis_ness.ListCommands.Save.{save}

llen_of : Option DatabaseValue → Command Token
llen_of none = pure (count 0)
llen_of (some v) = do xs ← lift (get_list v); pure (count (length xs))

unfoldable pub llen : Request → Command Token
unfolding llen_of
llen r = do found ← get r (get_param r 0); llen_of found

-- `shift`: the element (`undefined` from an empty array) and the rest.
abbrev pub shift : List String → Option String × List String
shift [] = (none, [])
shift (x ∷ xs) = (some x, xs)

-- `pop`
abbrev pub pop : List String → Option String × List String
pop [] = (none, [])
pop (x ∷ []) = (some x, [])
pop (x ∷ y ∷ xs) = let (last, rest) = pop (y ∷ xs) in (last, x ∷ rest)

lpop_of : String → Option DatabaseValue → Command Token
lpop_of key none = pure null_string
lpop_of key (some v) = do
  xs ← lift (get_list v)
  save key v (shift xs).1
  pure (string (shift xs).0)

unfoldable pub lpop : Request → Command Token
unfolding lpop_of
lpop r = do found ← get r (get_param r 0); lpop_of (get_param r 0) found

-- The events of RPOP: a list that is left empty was removed.
abbrev pub pop_events : Number → String → List String → List Event
pop_events db key [] = key_event db "rpop" key ∷ key_event db "del" key ∷ []
pop_events db key (x ∷ xs) = key_event db "rpop" key ∷ []

rpop_of : Number → String → Option DatabaseValue → Command Token
rpop_of db key none = pure null_string
rpop_of db key (some v) = do
  xs ← lift (get_list v)
  save key v (pop xs).1
  emit (pop_events db key (pop xs).1)
  pure (string (pop xs).0)

unfoldable pub rpop : Request → Command Token
unfolding rpop_of
rpop r = do found ← get r (get_param r 0); rpop_of r.current_db (get_param r 0) found

-- `unshift(member)`. `undefined`, the member of an empty array, is no element of the model: a
-- stored list has an element.
abbrev pub unshift : Option String → List String → List String
unshift none l = l
unshift (some x) l = x ∷ l

-- The two lists are one array where the keys are equal: what `pop` took is gone from it before
-- `unshift`.
transfer : String → String → DatabaseValue → DatabaseValue → Command Token
transfer src dst from to = do
  ys ← lift (get_list to)
  xs ← lift (get_list from)
  if src == dst
      then (do
        put dst (record to { value = list (unshift (pop xs).0 (pop xs).1) })
        pure (string (pop xs).0))
      else (do
        put dst (record to { value = list (unshift (pop xs).0 ys) })
        save src from (pop xs).1
        pure (string (pop xs).0))

rpoplpush_of : Request → Option DatabaseValue → Command Token
unfolding transfer
rpoplpush_of r none = pure null_string
rpoplpush_of r (some from) = do
  to ← get r (get_param r 1)
  transfer (get_param r 0) (get_param r 1) from (or_new_list to)

unfoldable pub rpoplpush : Request → Command Token
unfolding rpoplpush_of
rpoplpush r = do found ← get r (get_param r 0); rpoplpush_of r found
