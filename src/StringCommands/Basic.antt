-- ===== src/StringCommands/Basic.antt =====
-- src/resp/command/string: get-, getset-, setnx-, mget- and mset-command.ts.
pub mod Laws
pub mod Reading
pub mod Soundness
use unit_redis_ness.Prelude.{
  ℕ, ◌%◌, String, Bool, true, false, Option, none, some, List, [], ◌∷◌, length, eqb, if◌then◌else◌,
}
use unit_redis_ness.Outcome.{returns}
use unit_redis_ness.DatabaseValue.{DatabaseValue, string, of_payload, get_string}
use unit_redis_ness.Database
use unit_redis_ness.Token.{
  Token, Tokens, end, token, array, value, count, error, text, null_string, response_ok,
}
use unit_redis_ness.Command.{Request, get_param, Store, Command, ◌>>=◌, ◌>>◌, pure, lift, get, put}

-- `if (item) return item; return RedisToken.nullString();`
abbrev pub item_or_null : Option DatabaseValue → Token
item_or_null none = null_string
item_or_null (some v) = value v

unfoldable pub get_command : Request → Command Token
get_command r = do found ← get r (get_param r 0); pure (item_or_null found)

getset_of : Option DatabaseValue → Command Token
getset_of none = pure null_string
getset_of (some v) = do s ← lift (get_string v); pure (text s)

unfoldable pub getset : Request → Command Token
unfolding getset_of
getset r = do
  found ← get r (get_param r 0)
  result ← getset_of found
  put (get_param r 0) (of_payload (string (get_param r 1)))
  pure result

-- `db.exists(key)`
exists : Request → String → Command Bool
exists r key s = (
  returns (Database.exists r.now s.db key).0,
  record s { db = (Database.exists r.now s.db key).1 },
)

unfoldable pub setnx : Request → Command Token
unfolding exists
setnx r = do
  present ← exists r (get_param r 0)
  if present
      then pure (count 0)
      else (do put (get_param r 0) (of_payload (string (get_param r 1))); pure (count 1))

-- A key of another type reads as an absent one.
abbrev pub text_of : Option DatabaseValue → Token
text_of none = null_string
text_of (some v) = elim v.value [ string s ↦ text s | _ ↦ null_string ]

unfoldable pub mget_all : Request → List String → Command Tokens
mget_all r [] = pure end
mget_all r (key ∷ keys) = do
  found ← get r key
  rest ← mget_all r keys
  pure (token (text_of found) rest)

unfoldable pub mget : Request → Command Token
unfolding mget_all
mget r = do results ← mget_all r r.params; pure (array results)

-- The keys and values alternate; an odd number of them was refused.
unfoldable pub mset_all : List String → Command (Unit {0})
mset_all (key ∷ v ∷ rest) = do put key (of_payload (string v)); mset_all rest
mset_all _ = pure tt

unfoldable pub mset : Request → Command Token
unfolding mset_all
mset r =
    if eqb (length r.params % 2) 0
    then (do mset_all r.params; pure response_ok)
    else pure (error "ERR wrong number of arguments for mset")
