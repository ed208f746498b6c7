-- ===== src/Number.antt =====
-- JavaScript numbers as the commands use them, and the conversions of the language.
use unit_redis_ness.Prelude.{
  ℕ, String, ◌≡◌, Bool, true, false, Option, none, some, ℤ, pos, negsuc, abs_ℕ, ltb, leb, eqb_ℤ,
  ltb_ℤ, ◌+ℤ◌, ◌*ℤ◌, not, leb_ℤ, ◌&&◌, ltb, leb, pos, negsuc, ltb_ℤ, ◌≤◌, ◌==◌,
}

-- A double: NaN, an infinity (`true` is +∞), an integer, or a finite number that is no integer,
-- given by its floor and its shortest decimal spelling (`String(x)`).
pub data Number : Type 0 where
  nan : Number
  infinite : Bool → Number
  integer : ℤ → Number
  fraction : ℤ → String → Number

-- The parts of the JavaScript language that the code calls: `Number(s)`, `parseInt(s, 10)`,
-- `String(n)`, the sum and the product of two doubles, and `s.toLowerCase()`.
pub record Js : Type 0 where
  pub number : String → Number
  pub parse_int : String → Number
  pub print : Number → String
  pub add : Number → Number → Number
  pub mul : Number → Number → Number
  pub to_lower_case : String → String

-- `a === b` on numbers: NaN is no number's equal.
abbrev pub same : Number → Number → Bool
same nan _ = false
same (infinite true) (infinite true) = true
same (infinite false) (infinite false) = true
same (integer a) (integer b) = eqb_ℤ a b
same (fraction f s) (fraction g t) = eqb_ℤ f g && s == t
same _ _ = false

abbrev pub is_nan : Number → Bool
is_nan nan = true
is_nan _ = false

-- `Number.isInteger`, with the integer
abbrev pub to_integer? : Number → Option ℤ
to_integer? (integer z) = some z
to_integer? _ = none

-- Number.MAX_SAFE_INTEGER
abbrev pub max_safe : ℕ
max_safe = 9007199254740991

-- `Math.abs(n) < m`
abbrev pub abs_below : Number → ℕ → Bool
abs_below nan m = false
abs_below (infinite _) m = false
abs_below (integer z) m = ltb (abs_ℕ z) m
abs_below (fraction (pos f) _) m = ltb f m
abs_below (fraction (negsuc f) _) m = ltb f m

-- `Math.abs(n) <= m`
abbrev pub abs_within : Number → ℕ → Bool
abs_within (integer z) m = leb (abs_ℕ z) m
abs_within n m = abs_below n m

-- `n < 1`
abbrev pub below_one : Number → Bool
below_one nan = false
below_one (infinite up) = not up
below_one (integer z) = ltb_ℤ z (pos 1)
below_one (fraction f _) = ltb_ℤ f (pos 1)

-- `a < b`. Two fractions are told apart by their floors.
abbrev pub less : Number → Number → Bool
less nan _ = false
less (infinite up) nan = false
less (infinite up) (infinite up') = not up && up'
less (infinite up) (integer _) = not up
less (infinite up) (fraction _ _) = not up
less (integer a) nan = false
less (integer a) (infinite up) = up
less (integer a) (integer b) = ltb_ℤ a b
less (integer a) (fraction f _) = leb_ℤ a f
less (fraction f _) nan = false
less (fraction f _) (infinite up) = up
less (fraction f _) (integer b) = ltb_ℤ f b
less (fraction f _) (fraction g _) = ltb_ℤ f g

-- Documented behaviour of `String(n)`, `Number(s)` and `+` on integers in the safe range: printing
-- and reading an integer gives it back, and the sum and product of two integers are exact where safe.
pub record JsLaws (js : Js) : Type 0 where
  pub number-print : (z : ℤ) → abs_ℕ z ≤ max_safe → js.number (js.print (integer z)) ≡ integer z
  pub parse_int-print :
      (z : ℤ) → abs_ℕ z ≤ max_safe → js.parse_int (js.print (integer z)) ≡ integer z
  pub add-integer :
      (a b : ℤ) → abs_ℕ (a +ℤ b) ≤ max_safe → js.add (integer a) (integer b) ≡ integer (a +ℤ b)
  pub mul-integer :
      (a b : ℤ) → abs_ℕ (a *ℤ b) ≤ max_safe → js.mul (integer a) (integer b) ≡ integer (a *ℤ b)
