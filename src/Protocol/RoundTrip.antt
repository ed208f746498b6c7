-- ===== src/Protocol/RoundTrip.antt =====
-- What the server sends reads back, for replies of which each text is ASCII.
use Prim.Native.Char.{Char, code}
use Prim.Native.String
use Prim.Native.String.append
use unit_redis_ness.Prelude.{
  ℕ, zero, suc, ◌+◌, ◌-◌, ◌≤◌, String, ◌≡◌, refl, ap, ◌∙◌, true, none, some, List, [], ◌∷◌, pos,
  negsuc, ltb, arith,
}
use unit_redis_ness.Number.{Js, JsLaws, nan, infinite, fraction, integer}
use unit_redis_ness.DatabaseValue.{Payload, list, set, hash, zset}
use unit_redis_ness.Token.{Token, Tokens, end, token, array, error, number, status, value}
use unit_redis_ness.Protocol.{
  serialize, serialize_all, serialize_text, serialize_value, bulk as bulk_text, delimiter, line,
  utf16_length, comma_separated, count_tokens,
}
use unit_redis_ness.Protocol.Reader.{
  nil, bulk_reply, read, read_many, read_line, read_bytes, read_kind, read_array, kind_of, end_bulk,
}
use unit_redis_ness.Protocol.Sendable.{
  has_return, IsLine, is_ascii, IsAscii, IsBulk, IsSendableValue, IsSendableText, IsSendableNumber,
  IsSendable, AreSendable, after_commas, with_commas, shown_text, shown_value, shown, shown_all,
  size, sizes, PrintLaws,
}

text_assoc : (s t u : String) → String.◌++◌ (String.◌++◌ s t) u ≡ String.◌++◌ s (String.◌++◌ t u)
text_assoc String.[] t u = rw (append.nil t, append.nil (String.◌++◌ t u)) refl
text_assoc (String.◌∷◌ c s) t u =
    rw (append.cons c s t, append.cons c (String.◌++◌ s t) u, append.cons c s (String.◌++◌ t u))
      (ap (String.◌∷◌ c) (text_assoc s t u))

text_nil : (s : String) → String.◌++◌ s "" ≡ s
text_nil String.[] = append.nil ""
text_nil (String.◌∷◌ c s) = rw (append.cons c s "") (ap (String.◌∷◌ c) (text_nil s))

comma_separated-with_commas : (l : List String) → comma_separated l ≡ with_commas l
unfolding comma_separated with_commas after_commas
comma_separated-with_commas [] = refl
comma_separated-with_commas (s ∷ []) = rw (text_nil s) refl
comma_separated-with_commas (s ∷ t ∷ ss) =
    ap (λ u. String.◌++◌ s (String.◌++◌ "," u)) (comma_separated-with_commas (t ∷ ss))

read_line_end : (rest : String) → read_line (String.◌++◌ delimiter rest) ≡ some ("", rest)
unfolding read_line
read_line_end rest = rw (append.cons "\r" "\n" rest, append.cons "\n" "" rest, append.nil rest) refl

read_line-append :
    (s rest : String)
    → IsLine s
    → read_line (String.◌++◌ s (String.◌++◌ delimiter rest)) ≡ some (s, rest)
unfolding read_line has_return IsLine
read_line-append String.[] rest h =
    rw (append.nil (String.◌++◌ delimiter rest)) (read_line_end rest)
read_line-append (String.◌∷◌ c s) rest h =
    rw (append.cons c s (String.◌++◌ delimiter rest)) (ground (arith, read_line-append s rest))

utf16-read_bytes :
    (s rest : String)
    → IsAscii s
    → read_bytes (utf16_length s) (String.◌++◌ s (String.◌++◌ delimiter rest))
      ≡ some (s, String.◌++◌ delimiter rest)
unfolding read_bytes utf16_length IsAscii is_ascii
utf16-read_bytes String.[] rest h =
    rw (append.nil (String.◌++◌ delimiter rest), append.cons "\r" "\n" rest) refl
utf16-read_bytes (String.◌∷◌ c s) rest h =
    let here : ltb (code c) 128 ≡ true = ground arith in
    let unit : ltb (code c) 65536 ≡ true = ground arith in
    let one_less : suc (utf16_length s) - 1 ≡ utf16_length s = omega arith in
    rw
      (
        append.cons c s (String.◌++◌ delimiter rest),
        unit,
        here,
        one_less,
        utf16-read_bytes s rest (ground arith),
      )
      (ground arith)

module _ (js : Js) (laws : JsLaws js) (prints : PrintLaws js) where
  -- A reply that starts with a line.
  read-line :
      (f : ℕ) (c : Char) (s rest : String)
      → IsLine s
      → read js (suc f) (String.◌++◌ (line (String.◌∷◌ c "") s) rest)
        ≡ read_kind js (λ n. read_many js f n) (kind_of (code c)) s rest
  unfolding read
  read-line f c s rest h =
      let tail = String.◌++◌ (String.◌++◌ s delimiter) rest in
      rw
        (
          text_assoc (String.◌∷◌ c "") (String.◌++◌ s delimiter) rest,
          append.cons c "" tail,
          append.nil tail,
          text_assoc s delimiter rest,
          read_line-append s rest h,
        )
        refl

  number_minus_one : js.number "-1" ≡ integer (negsuc 0)
  number_minus_one = rw prints.print_minus_one at (laws.number-print (negsuc 0) (omega arith))

  read_nil :
      (f : ℕ) (rest : String)
      → read js (suc f) (String.◌++◌ (line "$" "-1") rest) ≡ some (nil, rest)
  unfolding read_kind IsLine has_return
  read_nil f rest = read-line f "$" "-1" rest refl ∙ rw number_minus_one refl

  end_bulk-text :
      (s rest : String) → end_bulk s (String.◌++◌ delimiter rest) ≡ some (bulk_reply s, rest)
  end_bulk-text s rest =
      rw (append.cons "\r" "\n" rest, append.cons "\n" "" rest, append.nil rest) refl

  read-bulk :
      (f : ℕ) (s rest : String)
      → IsBulk s
      → read js (suc f) (String.◌++◌ (bulk_text js s) rest) ≡ some (shown_text s, rest)
  unfolding bulk_text read_kind
  read-bulk f String.[] rest h = read_nil f rest
  read-bulk f (String.◌∷◌ c s) rest h =
      let n = utf16_length (String.◌∷◌ c s) in
      let printed = js.print (integer (pos n)) in
      let body = String.◌∷◌ c s in
      rw (text_assoc (line "$" printed) (String.◌++◌ body delimiter) rest) (
        read-line f "$" printed (String.◌++◌ (String.◌++◌ body delimiter) rest)
          (prints.print-IsLine (pos n) (omega (arith, h.1)))
        ∙ rw
            (
              laws.number-print (pos n) (omega (arith, h.1)),
              text_assoc body delimiter rest,
              utf16-read_bytes body rest h.0,
            )
            (end_bulk-text body rest))

  read-serialize_value :
      (v : Payload) (f : ℕ) (rest : String)
      → IsSendableValue js v
      → read js (suc f) (String.◌++◌ (serialize_value js v) rest) ≡ some (shown_value v, rest)
  unfolding serialize_value read_kind IsSendableValue IsLine has_return
  read-serialize_value (Payload.string s) f rest p = read-bulk f s rest p
  read-serialize_value (list l) f rest p =
      rw (← comma_separated-with_commas l) (read-line f "-" (comma_separated l) rest p)
  read-serialize_value (set m) f rest p = read-line f "-" "[object Set]" rest refl
  read-serialize_value (hash h) f rest p = read-line f "-" "[object Object]" rest refl
  read-serialize_value (zset z) f rest p = read-line f "-" "[object Object]" rest refl

  size_pos : (t : Token) → 1 ≤ size t
  unfolding size
  size_pos (array ts) = omega arith
  size_pos _ = omega arith

  sizes_pos : (ts : Tokens) → 1 ≤ sizes ts
  unfolding size
  sizes_pos end = omega arith
  sizes_pos (token t ts) = omega arith

  mutual
    unfolding serialize serialize_text shown size read read_kind read_array IsSendable
        IsSendableText IsSendableNumber

    reads :
        (t : Token) (f : ℕ) (rest : String)
        → IsSendable js t
        → size t ≤ f
        → read js f (String.◌++◌ (serialize js t) rest) ≡ some (shown t, rest)
    reads t zero rest p h = absurd (omega (arith, size_pos t))
    reads (array ts) (suc f) rest p h =
        let printed = js.print (integer (pos (count_tokens ts))) in
        rw (text_assoc (line "*" printed) (serialize_all js ts) rest) (
          read-line f "*" printed (String.◌++◌ (serialize_all js ts) rest)
            (prints.print-IsLine (pos (count_tokens ts)) (omega (arith, p.0)))
          ∙ rw
              (
                laws.number-print (pos (count_tokens ts)) (omega (arith, p.0)),
                reads_all ts f rest p.1 (omega arith),
              )
              refl)
    reads (error s) (suc f) rest p h = read-line f "-" s rest p
    reads (status s) (suc f) rest p h = read-line f "+" s rest p
    reads (number (integer z)) (suc f) rest p h =
        read-line f ":" (js.print (integer z)) rest (prints.print-IsLine z p)
        ∙ rw (laws.number-print z p) refl
    reads (number nan) (suc f) rest p h = absurd p
    reads (number (infinite up)) (suc f) rest p h = absurd p
    reads (number (fraction w x)) (suc f) rest p h = absurd p
    reads (Token.string none) (suc f) rest p h = read_nil f rest
    reads (Token.string (some s)) (suc f) rest p h = read-bulk f s rest p
    reads (value v) (suc f) rest p h = read-serialize_value v.value f rest p

    reads_all :
        (ts : Tokens) (f : ℕ) (rest : String)
        → AreSendable js ts
        → sizes ts ≤ f
        → read_many js f (count_tokens ts) (String.◌++◌ (serialize_all js ts) rest)
          ≡ some (shown_all ts, rest)
    reads_all ts zero rest p h = absurd (omega (arith, sizes_pos ts))
    reads_all end (suc f) rest p h = rw (append.nil rest) refl
    reads_all (token t ts) (suc f) rest p h =
        rw
          (
            text_assoc (serialize js t) (serialize_all js ts) rest,
            reads t f (String.◌++◌ (serialize_all js ts) rest) p.0 (omega arith),
            reads_all ts f rest p.1 (omega arith),
          )
          refl

  -- A reader of the Redis protocol, written apart from the server and with replies of its own,
  -- in which nil is not the empty text, reads what the server sends for a reply and leaves the
  -- rest of its input, given as many steps as the reply has parts: a status, an error and a
  -- number as they are, an array by its elements, a text as itself but the empty text as nil,
  -- and of a value that GET found the text likewise, a list as an error line with its elements
  -- between commas, a set, a hash or a sorted set as an error line. This is for replies whose
  -- lines hold no return, whose texts are ASCII, and whose numbers and lengths are safe
  -- integers.
  pub read-serialize :
      (t : Token) (f : ℕ) (rest : String)
      → IsSendable js t
      → size t ≤ f
      → read js f (String.◌++◌ (serialize js t) rest) ≡ some (shown t, rest)
  read-serialize t f rest p h = reads t f rest p h

  -- Two replies that the client can tell apart are sent as different texts.
  pub serialize_injective :
      (t u : Token)
      → IsSendable js t
      → IsSendable js u
      → serialize js t ≡ serialize js u
      → shown t ≡ shown u
  serialize_injective t u p q e =
      let a = reads t (size t + size u) "" p (omega arith) in
      let b = reads u (size t + size u) "" q (omega arith) in cc
