-- ===== src/Token.antt =====
-- src/resp/protocol: the replies, `RedisToken` and its subclasses.
use unit_redis_ness.Prelude.{ℕ, String, Bool, Option, some, List, [], ◌∷◌, pos, if◌then◌else◌}
use unit_redis_ness.Number.{Number, integer}
use unit_redis_ness.DatabaseValue.{DatabaseValue}

mutual
  -- The text of a string token may be `undefined`. GET replies with the database value itself,
  -- which has the `getType` and `getValue` of a token. A token of type `unknown` is never a reply.
  pub data Token : Type 0 where
    array : Tokens → Token
    error : String → Token
    number : Number → Token
    status : String → Token
    string : Option String → Token
    value : DatabaseValue → Token

  pub data Tokens : Type 0 where
    end : Tokens
    token : Token → Tokens → Tokens

-- RedisToken.string, nullString, responseOk, integer, boolean
abbrev pub text : String → Token
text s = string (some s)

abbrev pub null_string : Token
null_string = text ""

abbrev pub response_ok : Token
response_ok = status "OK"

abbrev pub count : ℕ → Token
count n = number (integer (pos n))

abbrev pub boolean : Bool → Token
boolean b = if b then count 1 else count 0

abbrev pub texts : List String → Tokens
texts [] = end
texts (s ∷ ss) = token (text s) (texts ss)
