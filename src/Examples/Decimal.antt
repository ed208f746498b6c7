-- ===== src/Examples/Decimal.antt =====
-- A concrete instance of the parts of JavaScript that the code calls: decimal integers, every other
-- text is NaN. The examples run the commands with it.
use Prim.Native.Char.{Char, code}
use Prim.Dec.{yes, no}
use unit_redis_ness.Prelude.{
  ℕ, zero, suc, ◌+◌, ◌-◌, ◌*◌, ◌/◌, ◌%◌, ◌<◌, ◌≡◌, refl, ap, String, ℤ, pos, negsuc, ◌+ℤ◌, ◌*ℤ◌,
  Bool, true, false, ◌&&◌, Option, none, some, ltb, leb, eqb, if◌then◌else◌, arith, dec_lt, lt→ltb,
  ◌∙◌,
}
use unit_redis_ness.Number.{Number, Js, JsLaws, nan, integer}
use unit_redis_ness.Protocol.Sendable.{PrintLaws, IsLine, has_return}

digit : ℕ → Char
digit zero = "0"
digit (suc zero) = "1"
digit (suc (suc zero)) = "2"
digit (suc (suc (suc zero))) = "3"
digit (suc (suc (suc (suc zero)))) = "4"
digit (suc (suc (suc (suc (suc zero))))) = "5"
digit (suc (suc (suc (suc (suc (suc zero)))))) = "6"
digit (suc (suc (suc (suc (suc (suc (suc zero))))))) = "7"
digit (suc (suc (suc (suc (suc (suc (suc (suc zero)))))))) = "8"
digit _ = "9"

is_digit : Char → Bool
is_digit c = leb 48 (code c) && leb (code c) 57

print_from : ℕ → ℕ → String → String
unfolding digit
print_from zero n rest = rest
print_from (suc fuel) n rest =
    let more = print_from fuel (n / 10) (String.◌∷◌ (digit (n % 10)) rest) in
    if ltb n 10 then String.◌∷◌ (digit n) rest else more

scan : ℕ → String → Option ℕ
unfolding is_digit
scan n String.[] = some n
scan n (String.◌∷◌ c s) =
    let rest = scan (n * 10 + (code c - 48)) s in if is_digit c then rest else none

digit_value : (d : ℕ) → d < 10 → (is_digit (digit d) ≡ true) × (code (digit d) - 48 ≡ d)
unfolding digit is_digit
digit_value zero h = (refl, refl)
digit_value (suc zero) h = (refl, refl)
digit_value (suc (suc zero)) h = (refl, refl)
digit_value (suc (suc (suc zero))) h = (refl, refl)
digit_value (suc (suc (suc (suc zero)))) h = (refl, refl)
digit_value (suc (suc (suc (suc (suc zero))))) h = (refl, refl)
digit_value (suc (suc (suc (suc (suc (suc zero)))))) h = (refl, refl)
digit_value (suc (suc (suc (suc (suc (suc (suc zero))))))) h = (refl, refl)
digit_value (suc (suc (suc (suc (suc (suc (suc (suc zero)))))))) h = (refl, refl)
digit_value (suc (suc (suc (suc (suc (suc (suc (suc (suc zero))))))))) h = (refl, refl)
digit_value (suc (suc (suc (suc (suc (suc (suc (suc (suc (suc d)))))))))) h = absurd (omega arith)

scan-digit : (n d : ℕ) (s : String) → d < 10 → scan n (String.◌∷◌ (digit d) s) ≡ scan (n * 10 + d) s
unfolding scan
scan-digit n d s h = let (a, b) = digit_value d h in rw (a, b) refl

scan-print_from :
    (fuel n : ℕ) (rest : String) → n < fuel → scan 0 (print_from fuel n rest) ≡ scan n rest
unfolding print_from
scan-print_from zero n rest h = absurd (omega arith)
scan-print_from (suc fuel) n rest h = elim (dec_lt n 10) [
  | yes small ↦
      let zero_plus : 0 * 10 + n ≡ n = omega arith in
      rw (lt→ltb n 10 small) (scan-digit 0 n rest small ∙ rw zero_plus refl)
  | no big ↦
      let e : ltb n 10 ≡ false = ground arith in
      let whole : n / 10 * 10 + n % 10 ≡ n = omega arith in
      rw e (
        scan-print_from fuel (n / 10) (String.◌∷◌ (digit (n % 10)) rest) (omega arith)
        ∙ scan-digit (n / 10) (n % 10) rest (omega arith)
        ∙ rw whole refl)
]

is_minus : Char → Bool
is_minus c = eqb (code c) 45

negated : ℕ → Number
negated zero = integer (pos 0)
negated (suc n) = integer (negsuc n)

natural : Option ℕ → Number
natural none = nan
natural (some n) = integer (pos n)

below_zero : Option ℕ → Number
below_zero none = nan
below_zero (some n) = negated n

read : String → Number
unfolding scan is_minus natural below_zero negated
read String.[] = integer (pos 0)
read (String.◌∷◌ c s) =
    if is_minus c then below_zero (scan 0 s) else natural (scan 0 (String.◌∷◌ c s))

print : Number → String
unfolding print_from
print (integer (pos n)) = print_from (suc n) n ""
print (integer (negsuc n)) = String.◌∷◌ "-" (print_from (suc (suc n)) (suc n) "")
print _ = "NaN"

add : Number → Number → Number
unfolding ◌+ℤ◌
add (integer a) (integer b) = integer (a +ℤ b)
add _ _ = nan

mul : Number → Number → Number
unfolding ◌*ℤ◌
mul (integer a) (integer b) = integer (a *ℤ b)
mul _ _ = nan

-- Texts of small letters only.
unfoldable pub decimal : Js
unfolding read print add mul
decimal = record {
  number = read;
  parse_int = read;
  print = print;
  add = add;
  mul = mul;
  to_lower_case = λ s. s;
}

not_minus : (d : ℕ) → d < 10 → is_minus (digit d) ≡ false
unfolding digit is_minus
not_minus zero h = refl
not_minus (suc zero) h = refl
not_minus (suc (suc zero)) h = refl
not_minus (suc (suc (suc zero))) h = refl
not_minus (suc (suc (suc (suc zero)))) h = refl
not_minus (suc (suc (suc (suc (suc zero))))) h = refl
not_minus (suc (suc (suc (suc (suc (suc zero)))))) h = refl
not_minus (suc (suc (suc (suc (suc (suc (suc zero))))))) h = refl
not_minus (suc (suc (suc (suc (suc (suc (suc (suc zero)))))))) h = refl
not_minus (suc (suc (suc (suc (suc (suc (suc (suc (suc zero))))))))) h = refl
not_minus (suc (suc (suc (suc (suc (suc (suc (suc (suc (suc d)))))))))) h = absurd (omega arith)

read-print_from :
    (fuel n : ℕ) (rest : String) → n < fuel → read (print_from fuel n rest) ≡ natural (scan n rest)
unfolding read print_from
read-print_from zero n rest h = absurd (omega arith)
read-print_from (suc fuel) n rest h = elim (dec_lt n 10) [
  | yes small ↦
      let zero_plus : 0 * 10 + n ≡ n = omega arith in
      rw (lt→ltb n 10 small, not_minus n small)
        (ap natural (scan-digit 0 n rest small) ∙ rw zero_plus refl)
  | no big ↦
      let e : ltb n 10 ≡ false = ground arith in
      let whole : n / 10 * 10 + n % 10 ≡ n = omega arith in
      rw e (
        read-print_from fuel (n / 10) (String.◌∷◌ (digit (n % 10)) rest) (omega arith)
        ∙ ap natural (scan-digit (n / 10) (n % 10) rest (omega arith))
        ∙ rw whole refl)
]

read-print : (z : ℤ) → read (print (integer z)) ≡ integer z
unfolding read print scan natural below_zero negated
read-print (pos n) = read-print_from (suc n) n "" (omega arith)
read-print (negsuc n) = rw (scan-print_from (suc (suc n)) (suc n) "" (omega arith)) refl

pub decimal_laws : JsLaws decimal
unfolding decimal
decimal_laws = record {
  number-print = λ z h. read-print z;
  parse_int-print = λ z h. read-print z;
  add-integer = λ a b h. refl;
  mul-integer = λ a b h. refl;
}

not_return : (d : ℕ) → d < 10 → eqb (code (digit d)) 13 ≡ false
unfolding digit
not_return zero h = refl
not_return (suc zero) h = refl
not_return (suc (suc zero)) h = refl
not_return (suc (suc (suc zero))) h = refl
not_return (suc (suc (suc (suc zero)))) h = refl
not_return (suc (suc (suc (suc (suc zero))))) h = refl
not_return (suc (suc (suc (suc (suc (suc zero)))))) h = refl
not_return (suc (suc (suc (suc (suc (suc (suc zero))))))) h = refl
not_return (suc (suc (suc (suc (suc (suc (suc (suc zero)))))))) h = refl
not_return (suc (suc (suc (suc (suc (suc (suc (suc (suc zero))))))))) h = refl
not_return (suc (suc (suc (suc (suc (suc (suc (suc (suc (suc d)))))))))) h = absurd (omega arith)

print_from-IsLine : (fuel n : ℕ) (rest : String) → IsLine rest → IsLine (print_from fuel n rest)
unfolding print_from IsLine has_return
print_from-IsLine zero n rest h = h
print_from-IsLine (suc fuel) n rest h = elim (dec_lt n 10) [
  | yes small ↦ rw (lt→ltb n 10 small, not_return n small) h
  | no big ↦
      let e : ltb n 10 ≡ false = ground arith in
      let digit_line : IsLine (String.◌∷◌ (digit (n % 10)) rest) =
        rw (not_return (n % 10) (omega arith)) h in
      rw e (print_from-IsLine fuel (n / 10) (String.◌∷◌ (digit (n % 10)) rest) digit_line)
]

decimal-IsLine : (z : ℤ) → IsLine (print (integer z))
unfolding print IsLine has_return
decimal-IsLine (pos n) = print_from-IsLine (suc n) n "" refl
decimal-IsLine (negsuc n) = print_from-IsLine (suc (suc n)) (suc n) "" refl

pub decimal_prints : PrintLaws decimal
unfolding decimal
decimal_prints = record { print-IsLine = λ z h. decimal-IsLine z; print_minus_one = refl }
