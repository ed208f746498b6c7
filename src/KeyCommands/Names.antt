-- ===== src/KeyCommands/Names.antt =====
-- src/resp/command/key: del-, exists-, rename-, renamenx- and type-command.ts.
pub mod Laws
pub mod Reading
pub mod Soundness
use unit_redis_ness.Prelude.{
  ℕ, suc, ◌+◌, String, Bool, true, false, Option, none, some, List, [], ◌∷◌, if◌then◌else◌,
}
use unit_redis_ness.Outcome.{returns}
use unit_redis_ness.DatabaseValue.{DatabaseValue, DataType, get_type}
use unit_redis_ness.Database
use unit_redis_ness.Token.{Token, count, error, text, response_ok}
use unit_redis_ness.Command.{Request, get_param, Store, Command, ◌>>=◌, ◌>>◌, pure, get, remove}

one_if_some : Option DatabaseValue → ℕ
one_if_some none = 0
one_if_some (some _) = 1

-- The loop of DEL; `remove` returns the entry, also one that has lapsed.
unfoldable pub del_all : List String → Command ℕ
unfolding one_if_some
del_all [] = pure 0
del_all (key ∷ keys) = do item ← remove key; rest ← del_all keys; pure (one_if_some item + rest)

unfoldable pub del : Request → Command Token
unfolding del_all
del r = do n ← del_all r.params; pure (count n)

-- `db.exists(key)`
abbrev pub exists_at : Request → String → Command Bool
exists_at r key s = (
  returns (Database.exists r.now s.db key).0,
  record s { db = (Database.exists r.now s.db key).1 },
)

unfoldable pub exists_all : Request → List String → Command ℕ
exists_all r [] = pure 0
exists_all r (key ∷ keys) = do
  present ← exists_at r key
  rest ← exists_all r keys
  pure (if present then suc rest else rest)

unfoldable pub exists : Request → Command Token
unfolding exists_all
exists r = do n ← exists_all r r.params; pure (count n)

-- `db.rename(from, to)`
abbrev pub rename_at : String → String → Command Bool
rename_at from to s =
    (returns (Database.rename s.db from to).0, record s { db = (Database.rename s.db from to).1 })

abbrev pub no_such_key : Token
no_such_key = error "ERR no such key"

rename_of : Request → Option DatabaseValue → Command Token
rename_of r none = pure no_such_key
rename_of r (some v) = do rename_at (get_param r 0) (get_param r 1); pure response_ok

unfoldable pub rename : Request → Command Token
unfolding rename_of
rename r = do found ← get r (get_param r 0); rename_of r found

renamenx_of : Request → Option DatabaseValue → Command Token
renamenx_of r none = pure no_such_key
renamenx_of r (some v) = do
  present ← exists_at r (get_param r 1)
  if present then pure (count 0) else (do rename_at (get_param r 0) (get_param r 1); pure (count 1))

unfoldable pub renamenx : Request → Command Token
unfolding renamenx_of
renamenx r = do found ← get r (get_param r 0); renamenx_of r found

-- The texts of the enumeration `DataType`.
abbrev pub type_name : DataType → String
type_name DataType.hash = "hash"
type_name DataType.list = "list"
type_name DataType.none_type = "none"
type_name DataType.set = "set"
type_name DataType.string = "string"
type_name DataType.zset = "zset"

abbrev pub type_of : Option DatabaseValue → DataType
type_of none = DataType.none_type
type_of (some v) = get_type v

unfoldable pub type : Request → Command Token
type r = do found ← get r (get_param r 0); pure (text (type_name (type_of found)))
