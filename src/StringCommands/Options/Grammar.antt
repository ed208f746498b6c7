-- ===== src/StringCommands/Options/Grammar.antt =====
-- What the options of SET ask for, written apart from the loop that reads them.
use unit_redis_ness.Prelude.{
  ℕ, suc, ◌+◌, ◌*◌, ◌≤◌, String, ◌≡◌, ◌≢◌, Option, none, some, List, [], ◌∷◌, ℤ, pos,
}
use unit_redis_ness.Number.{Js, integer, max_safe}
use unit_redis_ness.DatabaseValue.{DatabaseValue}

-- When SET is to write: always, only where the key holds nothing, or only where it holds a value.
pub data Condition : Type 0 where
  always if_absent if_held : Condition

module _ (js : Js) where
  unfoldable pub IsFlag : Condition → String → Type 0
  IsFlag always o = ⊥
  IsFlag if_absent o = js.to_lower_case o ≡ "nx"
  IsFlag if_held o = js.to_lower_case o ≡ "xx"

  -- The texts ask for the condition and for the time to live in milliseconds.
  pub data Asks : List String → Condition → Option ℕ → Type 0 where
    nothing : Asks [] always none
    flag :
        {o : String} {os : List String} {c : Condition} {t : Option ℕ}
        → IsFlag c o
        → Asks os always t
        → Asks (o ∷ os) c t
    flag_again :
        {o : String} {os : List String} {c : Condition} {t : Option ℕ}
        → IsFlag c o
        → Asks os c t
        → Asks (o ∷ os) c t
    in_seconds :
        {o a : String} {os : List String} {c : Condition} (n : ℕ)
        → js.to_lower_case o ≡ "ex"
        → js.parse_int a ≡ integer (pos (suc n))
        → Asks os c none
        → Asks (o ∷ a ∷ os) c (some (suc n * 1000))
    in_milliseconds :
        {o a : String} {os : List String} {c : Condition} (n : ℕ)
        → js.to_lower_case o ≡ "px"
        → js.parse_int a ≡ integer (pos (suc n))
        → Asks os c none
        → Asks (o ∷ a ∷ os) c (some (suc n))

unfoldable pub Allows : Condition → Option DatabaseValue → Type 0
Allows always v = Unit
Allows if_absent v = v ≡ none
Allows if_held v = v ≢ none

-- The deadline of a time to live.
abbrev pub ends : ℕ → Option ℕ → Option ℤ
ends now none = none
ends now (some t) = some (pos (now + t))

abbrev pub IsInTime : ℕ → Option ℕ → Type 0
IsInTime now none = Unit
IsInTime now (some t) = now + t ≤ max_safe
