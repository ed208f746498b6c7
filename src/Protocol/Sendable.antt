-- ===== src/Protocol/Sendable.antt =====
-- The replies that a client can read back as they are: what the protocol can carry.
use Prim.Native.Char.{code}
use Prim.Native.String
use unit_redis_ness.Prelude.{
  ℕ, suc, ◌+◌, ◌≤◌, String, ◌≡◌, Bool, true, false, Option, none, some, List, [], ◌∷◌, ℤ, negsuc,
  abs_ℕ, ltb, eqb, if◌then◌else◌,
}
use unit_redis_ness.Number.{Number, Js, integer, max_safe}
use unit_redis_ness.DatabaseValue.{Payload, list, set, hash, zset}
use unit_redis_ness.Token.{Token, Tokens, end, token, array, error, number, status, value}
use unit_redis_ness.Protocol.Reader.{
  Reply, nil, bulk_reply, status_reply, error_reply, number_reply, array_reply, Replies, no_more,
  reply,
}
use unit_redis_ness.Protocol.{utf16_length, comma_separated, count_tokens}

unfoldable pub has_return : String → Bool
has_return String.[] = false
has_return (String.◌∷◌ c s) = let rest = has_return s in if eqb (code c) 13 then true else rest

-- A text that fits on a line of the protocol.
unfoldable pub IsLine : String → Type 0
IsLine s = has_return s ≡ false

unfoldable pub is_ascii : String → Bool
is_ascii String.[] = true
is_ascii (String.◌∷◌ c s) = let rest = is_ascii s in if ltb (code c) 128 then rest else false

unfoldable pub IsAscii : String → Type 0
IsAscii s = is_ascii s ≡ true

-- What the protocol can carry of a text whose length is a safe integer.
abbrev pub IsBulk : String → Type 0
IsBulk s = IsAscii s × (utf16_length s ≤ max_safe)

unfoldable pub IsSendableValue : Js → Payload → Type 0
IsSendableValue js (Payload.string s) = IsBulk s
IsSendableValue js (list l) = IsLine (comma_separated l)
IsSendableValue js _ = Unit

unfoldable pub IsSendableText : Option String → Type 0
IsSendableText none = Unit
IsSendableText (some s) = IsBulk s

unfoldable pub IsSendableNumber : Number → Type 0
IsSendableNumber (integer z) = abs_ℕ z ≤ max_safe
IsSendableNumber _ = ⊥

-- Lines without a return, ASCII texts, safe integers.
unfoldable mutual
  unfolding IsSendableValue IsSendableText IsSendableNumber

  pub IsSendable : Js → Token → Type 0
  IsSendable js (array ts) = (count_tokens ts ≤ max_safe) × AreSendable js ts
  IsSendable js (error s) = IsLine s
  IsSendable js (number n) = IsSendableNumber n
  IsSendable js (status s) = IsLine s
  IsSendable js (Token.string s) = IsSendableText s
  IsSendable js (value v) = IsSendableValue js v.value

  pub AreSendable : Js → Tokens → Type 0
  AreSendable js end = Unit
  AreSendable js (token t ts) = IsSendable js t × AreSendable js ts

abbrev pub shown_text : String → Reply
shown_text String.[] = nil
shown_text (String.◌∷◌ c s) = bulk_reply (String.◌∷◌ c s)

-- The texts of a list, a comma before each but the first one.
unfoldable pub after_commas : List String → String
after_commas [] = ""
after_commas (s ∷ ss) = String.◌++◌ "," (String.◌++◌ s (after_commas ss))

unfoldable pub with_commas : List String → String
unfolding after_commas
with_commas [] = ""
with_commas (s ∷ ss) = String.◌++◌ s (after_commas ss)

-- The value that GET replies with.
abbrev pub shown_value : Payload → Reply
shown_value (Payload.string s) = shown_text s
shown_value (list l) = error_reply (with_commas l)
shown_value (set m) = error_reply "[object Set]"
shown_value (hash h) = error_reply "[object Object]"
shown_value (zset z) = error_reply "[object Object]"

-- The reply that the client is to see: nil for no text and for the empty text, and an error line
-- for a value that is no text.
unfoldable mutual
  pub shown : Token → Reply
  shown (array ts) = array_reply (shown_all ts)
  shown (error s) = error_reply s
  shown (number n) = number_reply n
  shown (status s) = status_reply s
  shown (Token.string none) = nil
  shown (Token.string (some s)) = shown_text s
  shown (value v) = shown_value v.value

  pub shown_all : Tokens → Replies
  shown_all end = no_more
  shown_all (token t ts) = reply (shown t) (shown_all ts)

unfoldable mutual
  pub size : Token → ℕ
  size (array ts) = suc (sizes ts)
  size _ = 1

  pub sizes : Tokens → ℕ
  sizes end = 1
  sizes (token t ts) = suc (size t + sizes ts)

-- Documented behaviour of `String(n)` on safe integers.
pub record PrintLaws (js : Js) : Type 0 where
  pub print-IsLine : (z : ℤ) → abs_ℕ z ≤ max_safe → IsLine (js.print (integer z))
  pub print_minus_one : js.print (integer (negsuc 0)) ≡ "-1"
