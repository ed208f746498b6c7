-- ===== src/SetCommands.antt =====
-- src/resp/command/set: sadd-, srem-, scard-, sismember- and smembers-command.ts. A JavaScript set
-- keeps the order of insertion.
pub mod Laws
pub mod Several
pub mod Reading
pub mod Soundness
use unit_redis_ness.Prelude.{
  ℕ, zero, suc, ◌+◌, ◌-◌, String, Bool, true, false, Option, none, some, List, [], ◌∷◌, ◌++◌,
  length, drop, ltb, ◌==◌, if◌then◌else◌,
}
use unit_redis_ness.DatabaseValue.{DatabaseValue, set, of_payload, get_set}
use unit_redis_ness.Database
use unit_redis_ness.Token.{Token, array, texts, count}
use unit_redis_ness.Command.{
  Request, get_param, Store, Command, ◌>>=◌, ◌>>◌, pure, lift, get, put, remove,
}

-- `db.getOrDefault(key, new DatabaseValue(DataType.SET, new Set()))`
abbrev pub or_new_set : Option DatabaseValue → DatabaseValue
or_new_set none = of_payload (set [])
or_new_set (some v) = v

-- Set.has
unfoldable pub has : String → List String → Bool
has m [] = false
has m (x ∷ xs) = let rest = has m xs in if x == m then true else rest

-- Set.delete
unfoldable pub delete : String → List String → List String
delete m [] = []
delete m (x ∷ xs) = let rest = delete m xs in if x == m then xs else x ∷ rest

-- `if (!originalSet.has(newValue)) originalSet.add(newValue)`, for each parameter.
unfoldable pub add_each : List String → List String → List String
unfolding has
add_each [] xs = xs
add_each (m ∷ ms) xs = add_each ms (if has m xs then xs else xs ++ m ∷ [])

unfoldable pub sadd : Request → Command Token
unfolding add_each
sadd r = do
  found ← get r (get_param r 0)
  xs ← lift (get_set (or_new_set found))
  put (get_param r 0) (of_payload (set (add_each (drop 1 r.params) xs)))
  pure (count (length (add_each (drop 1 r.params) xs) - length xs))

-- The loop of SREM: how many members it found, and what is left.
unfoldable pub delete_each : List String → List String → ℕ × List String
unfolding has delete
delete_each [] xs = (0, xs)
delete_each (m ∷ ms) xs =
    let (n, ys) = delete_each ms (if has m xs then delete m xs else xs) in
    ((if has m xs then suc n else n), ys)

-- `if (results > 0) { if (size > 0) db.put(key, dbKey) else db.remove(key) }`
put_rest : String → DatabaseValue → ℕ × List String → Command (Unit {0})
put_rest key v (zero, ys) = pure tt
put_rest key v (suc n, []) = do remove key; pure tt
put_rest key v (suc n, y ∷ ys) = put key (record v { value = set (y ∷ ys) })

srem_of : Request → Option DatabaseValue → Command Token
unfolding delete_each put_rest
srem_of r none = pure (count 0)
srem_of r (some v) = do
  xs ← lift (get_set v)
  put_rest (get_param r 0) v (delete_each (drop 1 r.params) xs)
  pure (count (delete_each (drop 1 r.params) xs).0)

unfoldable pub srem : Request → Command Token
unfolding srem_of
srem r = do found ← get r (get_param r 0); srem_of r found

unfoldable pub scard : Request → Command Token
scard r = do
  found ← get r (get_param r 0)
  xs ← lift (get_set (or_new_set found))
  pure (count (length xs))

unfoldable pub sismember : Request → Command Token
unfolding has
sismember r = do
  found ← get r (get_param r 0)
  xs ← lift (get_set (or_new_set found))
  pure (if has (get_param r 1) xs then count 1 else count 0)

unfoldable pub smembers : Request → Command Token
smembers r = do
  found ← get r (get_param r 0)
  xs ← lift (get_set (or_new_set found))
  pure (array (texts xs))
