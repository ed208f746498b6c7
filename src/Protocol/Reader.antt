-- ===== src/Protocol/Reader.antt =====
-- The client's side of the protocol, as Redis documents it (https://redis.io/topics/protocol):
-- the replies that a client reads, where nil is not the empty text.
use Prim.Native.Char.{Char, code}
use unit_redis_ness.Prelude.{
  ℕ, zero, suc, ◌-◌, String, Option, none, some, pos, negsuc, ltb, eqb, if◌then◌else◌,
}
use unit_redis_ness.Number.{Number, Js, integer}

mutual
  pub data Reply : Type 0 where
    nil : Reply
    bulk_reply : String → Reply
    status_reply : String → Reply
    error_reply : String → Reply
    number_reply : Number → Reply
    array_reply : Replies → Reply

  pub data Replies : Type 0 where
    no_more : Replies
    reply : Reply → Replies → Replies

abbrev pub Reading {ℓ} : Type ℓ → Type ℓ
Reading A = Option (A × String)

abbrev pub and_then {ℓ} : {A B : Type ℓ} → Reading A → (A → String → Reading B) → Reading B
and_then none f = none
and_then (some (a, rest)) f = f a rest

-- The text up to the next line end. A carriage return without a line feed is refused.
abbrev pub longer : Char → Reading String → Reading String
longer c none = none
longer c (some (s, rest)) = some (String.◌∷◌ c s, rest)

abbrev pub after_feed : String → Reading String
after_feed String.[] = none
after_feed (String.◌∷◌ c s) = if eqb (code c) 10 then some ("", s) else none

unfoldable pub read_line : String → Reading String
read_line String.[] = none
read_line (String.◌∷◌ c s) =
    let rest = read_line s in if eqb (code c) 13 then after_feed s else longer c rest

-- How many bytes the character takes in UTF-8.
abbrev pub utf8_width : Char → ℕ
utf8_width c =
    if ltb (code c) 128
    then 1
    else if ltb (code c) 2048
    then 2
    else if ltb (code c) 65536
    then 3
    else 4

-- The next `n` bytes of the UTF-8, which end between two characters.
unfoldable pub read_bytes : ℕ → String → Reading String
read_bytes n String.[] = if eqb n 0 then some ("", "") else none
read_bytes n (String.◌∷◌ c s) =
    let rest = read_bytes (n - utf8_width c) s in
    if eqb n 0
    then some ("", String.◌∷◌ c s)
    else if ltb n (utf8_width c)
    then none
    else longer c rest

abbrev pub end_bulk : String → String → Reading Reply
end_bulk s (String.◌∷◌ c rest) =
    if eqb (code c) 13
    then and_then (after_feed rest) (λ _ more. some (bulk_reply s, more))
    else none
end_bulk s String.[] = none

-- `$-1` is nil, and `$0` the empty text.
abbrev pub read_bulk : Number → String → Reading Reply
read_bulk (integer (pos n)) s = and_then (read_bytes n s) end_bulk
read_bulk (integer (negsuc zero)) s = some (nil, s)
read_bulk _ s = none

abbrev pub of_replies : Reading Replies → Reading Reply
of_replies none = none
of_replies (some (ts, rest)) = some (array_reply ts, rest)

abbrev pub cons_reply : Reply → Reading Replies → Reading Replies
cons_reply t none = none
cons_reply t (some (ts, rest)) = some (reply t ts, rest)

pub data Kind : Type 0 where
  simple failure numeral bulk many unknown : Kind

-- The marks `+`, `-`, `:`, `$` and `*`.
abbrev pub kind_of : ℕ → Kind
kind_of k =
    if eqb k 43
    then simple
    else if eqb k 45
    then failure
    else if eqb k 58
    then numeral
    else if eqb k 36
    then bulk
    else if eqb k 42
    then many
    else unknown

module _ (js : Js) where
  -- What follows the first line; `elements` reads that many replies.
  unfoldable pub read_array : (ℕ → String → Reading Replies) → Number → String → Reading Reply
  read_array elements (integer (pos n)) rest = of_replies (elements n rest)
  read_array elements _ rest = none

  unfoldable pub read_kind : (ℕ → String → Reading Replies) → Kind → String → String → Reading Reply
  unfolding read_array read_bytes
  read_kind elements simple l rest = some (status_reply l, rest)
  read_kind elements failure l rest = some (error_reply l, rest)
  read_kind elements numeral l rest = some (number_reply (js.number l), rest)
  read_kind elements bulk l rest = read_bulk (js.number l) rest
  read_kind elements many l rest = read_array elements (js.number l) rest
  read_kind elements unknown l rest = none

  -- One reply, off the front of the bytes. `js.number` reads the decimal numbers.
  unfoldable mutual
    unfolding read_line read_kind

    pub read : ℕ → String → Reading Reply
    read zero s = none
    read (suc fuel) String.[] = none
    read (suc fuel) (String.◌∷◌ c s) =
        and_then (read_line s) λ l rest. read_kind (λ n. read_many fuel n) (kind_of (code c)) l rest

    pub read_many : ℕ → ℕ → String → Reading Replies
    read_many zero n s = none
    read_many (suc fuel) zero s = some (no_more, s)
    read_many (suc fuel) (suc n) s =
        and_then (read fuel s) λ t rest. cons_reply t (read_many fuel n rest)
