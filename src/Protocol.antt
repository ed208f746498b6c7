-- ===== src/Protocol.antt =====
-- src/resp/protocol/resp-serialize.ts: a reply as the bytes that go to the client.
pub mod Reader
pub mod RoundTrip
pub mod Sendable
use Prim.Native.Char.{Char, code}
use Prim.Native.String
use unit_redis_ness.Prelude.{
  ℕ, suc, ◌+◌, String, Bool, Option, none, some, List, [], ◌∷◌, pos, ltb, if◌then◌else◌,
}
use unit_redis_ness.Number.{Number, Js, integer}
use unit_redis_ness.DatabaseValue.{DatabaseValue, Payload, string, list, set, hash, zset}
use unit_redis_ness.Token
use unit_redis_ness.Token.{Token, Tokens, end, token, array, error, number, status, value}

abbrev pub delimiter : String
delimiter = "\r\n"

-- `s.length`: JavaScript counts UTF-16 units.
unfoldable pub utf16_length : String → ℕ
utf16_length String.[] = 0
utf16_length (String.◌∷◌ c s) =
    let rest = utf16_length s in if ltb (code c) 65536 then suc rest else suc (suc rest)

abbrev pub line : String → String → String
line mark s = String.◌++◌ mark (String.◌++◌ s delimiter)

-- `${array}`: the elements with commas between them.
unfoldable pub comma_separated : List String → String
comma_separated [] = ""
comma_separated (s ∷ []) = s
comma_separated (s ∷ t ∷ ss) = String.◌++◌ s (String.◌++◌ "," (comma_separated (t ∷ ss)))

abbrev pub count_tokens : Tokens → ℕ
count_tokens end = 0
count_tokens (token t ts) = suc (count_tokens ts)

module _ (js : Js) where
  -- The case of a text: one that is empty is sent as nil.
  unfoldable pub bulk : String → String
  unfolding utf16_length
  bulk String.[] = line "$" "-1"
  bulk (String.◌∷◌ c s) =
      String.◌++◌ (line "$" (js.print (integer (pos (utf16_length (String.◌∷◌ c s))))))
        (String.◌++◌ (String.◌∷◌ c s) delimiter)

  -- A database value that stands for a token (the reply of GET): `getType()` is that of a token for
  -- a text only, and the others take the `default` branch with `${value}`.
  unfoldable pub serialize_value : Payload → String
  unfolding bulk comma_separated
  serialize_value (Payload.string s) = bulk s
  serialize_value (list l) = line "-" (comma_separated l)
  serialize_value (set m) = line "-" "[object Set]"
  serialize_value (hash h) = line "-" "[object Object]"
  serialize_value (zset z) = line "-" "[object Object]"

  serialize_text : Option String → String
  unfolding bulk
  serialize_text none = line "$" "-1"
  serialize_text (some s) = bulk s

  unfoldable mutual
    unfolding serialize_value serialize_text

    pub serialize : Token → String
    serialize (array ts) =
        String.◌++◌ (line "*" (js.print (integer (pos (count_tokens ts))))) (serialize_all ts)
    serialize (error s) = line "-" s
    serialize (number n) = line ":" (js.print n)
    serialize (status s) = line "+" s
    serialize (Token.string s) = serialize_text s
    serialize (value v) = serialize_value v.value

    pub serialize_all : Tokens → String
    serialize_all end = ""
    serialize_all (token t ts) = String.◌++◌ (serialize t) (serialize_all ts)
