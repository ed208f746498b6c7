-- ===== src/HashCommands.antt =====
-- src/resp/command/hash: hget-, hset- and hgetall-command.ts. A hash is a JavaScript object used as
-- a map; its fields are listed in the order of insertion.
pub mod Laws
pub mod Reading
pub mod Soundness
use unit_redis_ness.Prelude.{
  ℕ, zero, suc, ◌%◌, String, Bool, true, false, not, Option, none, some, List, [], ◌∷◌, length,
  drop, ◌==◌, eqb, if◌then◌else◌,
}
use unit_redis_ness.Dictionary
use unit_redis_ness.Dictionary.{Dictionary}
use unit_redis_ness.DatabaseValue.{DatabaseValue, hash, of_payload, get_hash}
use unit_redis_ness.Token.{Token, Tokens, token, end, array, error, text, count, null_string}
use unit_redis_ness.Command.{
  Request, get_param, get_length, Command, ◌>>=◌, ◌>>◌, pure, lift, get, put,
}

-- `!!hash[field]`: an empty text is falsy.
abbrev pub is_filled : Option String → Bool
is_filled none = false
is_filled (some v) = not (v == "")

abbrev pub field_value : Option String → Token
field_value none = null_string
field_value (some v) = if v == "" then null_string else text v

hget_of : Request → Option DatabaseValue → Command Token
hget_of r none = pure null_string
hget_of r (some item) = do
  h ← lift (get_hash item)
  pure (field_value (Dictionary.get h (get_param r 1)))

unfoldable pub hget : Request → Command Token
unfolding hget_of
hget r = do found ← get r (get_param r 0); hget_of r found

abbrev pub fields : List (String × String) → Tokens
fields [] = end
fields ((field, v) ∷ m) = token (text field) (token (text v) (fields m))

hgetall_of : Option DatabaseValue → Command Token
hgetall_of none = pure (array (token null_string end))
hgetall_of (some item) = do h ← lift (get_hash item); pure (array (fields h.items))

unfoldable pub hgetall : Request → Command Token
unfolding hgetall_of
hgetall r = do found ← get r (get_param r 0); hgetall_of found

-- The loop of HSET: how many fields it added, and the hash. The parameters come in pairs, since
-- their number is checked first.
unfoldable pub set_fields : List String → Dictionary String → ℕ × Dictionary String
set_fields [] h = (0, h)
set_fields (field ∷ []) h = (0, h)
set_fields (field ∷ v ∷ rest) h =
    let (n, h') = set_fields rest (Dictionary.put h field v) in
    ((if is_filled (Dictionary.get h field) then n else suc n), h')

abbrev pub or_new_hash : Option DatabaseValue → DatabaseValue
or_new_hash none = of_payload (hash Dictionary.empty)
or_new_hash (some item) = item

hset_of : Request → Option DatabaseValue → Command Token
unfolding set_fields
hset_of r found = do
  h ← lift (get_hash (or_new_hash found))
  put (get_param r 0) (of_payload (hash (set_fields (drop 1 r.params) h).1))
  pure (count (set_fields (drop 1 r.params) h).0)

-- The test is on the number of parameters, the key included.
unfoldable pub hset : Request → Command Token
unfolding hset_of
hset r =
    if eqb (get_length r % 2) 1
    then (do found ← get r (get_param r 0); hset_of r found)
    else pure (error "ERR wrong number of arguments for hset")
