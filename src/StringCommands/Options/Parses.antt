-- ===== src/StringCommands/Options/Parses.antt =====
-- The loop that reads the options of SET, against their grammar.
use unit_redis_ness.Prelude.{
  ℕ, suc, ◌*◌, ◌≤◌, String, ◌≡◌, refl, ap, ◌∙◌, true, false, Option, none, some, List, [], ◌∷◌, pos,
  mul-pos, arith,
}
use unit_redis_ness.Number.{Number, Js, JsLaws, integer, max_safe}
use unit_redis_ness.Outcome.{returns}
use unit_redis_ness.StringCommands.Options
use unit_redis_ness.StringCommands.Options.{
  Parameters, no_parameters, SetOption, ex, px, nx, xx, and_then, take_option, with_flag, option_of,
  with_ttl, parse_options, deadline, set,
}
use unit_redis_ness.StringCommands.Options.Grammar.{
  Condition, always, if_absent, if_held, IsFlag, Asks, nothing, flag, flag_again, in_seconds,
  in_milliseconds, IsInTime,
}

-- The parameters of the code for a condition and a time to live.
unfoldable pub with_condition : Condition → Parameters → Parameters
with_condition always p = p
with_condition if_absent p = record p { if_not_exists = true }
with_condition if_held p = record p { if_exists = true }

unfoldable pub with_time : Option ℕ → Parameters → Parameters
with_time none p = p
with_time (some t) p = record p { ttl = some (integer (pos t)) }

-- The parameters have no flag against the condition.
unfoldable pub Fits : Condition → Parameters → Type 0
Fits always p = Unit
Fits if_absent p = p.if_exists ≡ false
Fits if_held p = p.if_not_exists ≡ false

module _ (js : Js) where
  option_of_nx : (o : String) → js.to_lower_case o ≡ "nx" → option_of js o ≡ nx
  unfolding option_of
  option_of_nx o h = rw h refl

  option_of_xx : (o : String) → js.to_lower_case o ≡ "xx" → option_of js o ≡ xx
  unfolding option_of
  option_of_xx o h = rw h refl

  option_of_ex : (o : String) → js.to_lower_case o ≡ "ex" → option_of js o ≡ ex
  unfolding option_of
  option_of_ex o h = rw h refl

  option_of_px : (o : String) → js.to_lower_case o ≡ "px" → option_of js o ≡ px
  unfolding option_of
  option_of_px o h = rw h refl

  flag-parse_options :
      (c : Condition) (o : String) (os : List String) (p : Parameters)
      → IsFlag js c o
      → Fits c p
      → parse_options js (o ∷ os) p ≡ parse_options js os (with_condition c p)
  unfolding parse_options take_option and_then with_flag IsFlag Fits with_condition
  flag-parse_options always o os p h fits = absurd h
  flag-parse_options if_absent o [] p h fits = rw (option_of_nx o h, fits) refl
  flag-parse_options if_absent o (a ∷ os) p h fits = rw (option_of_nx o h, fits) refl
  flag-parse_options if_held o [] p h fits = rw (option_of_xx o h, fits) refl
  flag-parse_options if_held o (a ∷ os) p h fits = rw (option_of_xx o h, fits) refl

  Fits-with_condition : (c : Condition) (p : Parameters) → Fits c p → Fits c (with_condition c p)
  unfolding Fits with_condition
  Fits-with_condition always p fits = fits
  Fits-with_condition if_absent p fits = fits
  Fits-with_condition if_held p fits = fits

  with_condition_twice :
      (c : Condition) (p : Parameters) → with_condition c (with_condition c p) ≡ with_condition c p
  unfolding with_condition
  with_condition_twice always p = refl
  with_condition_twice if_absent p = refl
  with_condition_twice if_held p = refl

  module _ (a : String) (n : ℕ) (read : js.parse_int a ≡ integer (pos (suc n))) where
    with_ttl_lem :
        (scale : Number → Number) (p : Parameters)
        → p.ttl ≡ none
        → with_ttl js scale a p ≡ returns (record p { ttl = some (scale (integer (pos (suc n)))) })
    unfolding with_ttl
    with_ttl_lem scale p fresh = rw (fresh, read) (ground arith)

    seconds-parse_options :
        JsLaws js
        → suc n * 1000 ≤ max_safe
        → (o : String) (os : List String) (p : Parameters) → js.to_lower_case o ≡ "ex"
        → p.ttl ≡ none
        → parse_options js (o ∷ a ∷ os) p ≡ parse_options js os (with_time (some (suc n * 1000)) p)
    unfolding parse_options take_option and_then with_time
    seconds-parse_options laws safe o os p h fresh =
        rw
          (
            option_of_ex o h,
            with_ttl_lem (Options.seconds js) p fresh,
            laws.mul-integer (pos (suc n)) (pos 1000) (rw (mul-pos (suc n) 1000) (omega arith)),
            mul-pos (suc n) 1000,
          )
          refl

    milliseconds-parse_options :
        (o : String) (os : List String) (p : Parameters)
        → js.to_lower_case o ≡ "px"
        → p.ttl ≡ none
        → parse_options js (o ∷ a ∷ os) p ≡ parse_options js os (with_time (some (suc n)) p)
    unfolding parse_options take_option and_then with_time
    milliseconds-parse_options o os p h fresh =
        rw (option_of_px o h, with_ttl_lem (λ k. k) p fresh) refl

-- There is no time to live yet, where one is asked for.
unfoldable pub IsFree : Option ℕ → Parameters → Type 0
IsFree none p = Unit
IsFree (some t) p = p.ttl ≡ none

IsFree-with_condition :
    (c : Condition) (t : Option ℕ) (p : Parameters) → IsFree t p → IsFree t (with_condition c p)
unfolding IsFree with_condition
IsFree-with_condition always t p h = h
IsFree-with_condition if_absent none p h = tt
IsFree-with_condition if_absent (some t) p h = h
IsFree-with_condition if_held none p h = tt
IsFree-with_condition if_held (some t) p h = h

Fits-with_time : (c : Condition) (t : Option ℕ) (p : Parameters) → Fits c p → Fits c (with_time t p)
unfolding Fits with_time
Fits-with_time c none p h = h
Fits-with_time always (some t) p h = tt
Fits-with_time if_absent (some t) p h = h
Fits-with_time if_held (some t) p h = h

with_condition-with_time :
    (c : Condition) (t : Option ℕ) (p : Parameters)
    → with_condition c (with_time t p) ≡ with_time t (with_condition c p)
unfolding with_condition with_time
with_condition-with_time c none p = refl
with_condition-with_time always (some t) p = refl
with_condition-with_time if_absent (some t) p = refl
with_condition-with_time if_held (some t) p = refl

module _ (js : Js) (laws : JsLaws js) (now : ℕ) where
  pub asked-parses :
      {os : List String} {c : Condition} {t : Option ℕ}
      → Asks js os c t
      → IsInTime now t
      → (p : Parameters) → Fits c p
      → IsFree t p
      → parse_options js os p ≡ returns (with_time t (with_condition c p))
  unfolding parse_options with_time with_condition Fits IsFree
  asked-parses nothing safe p fits free = refl
  asked-parses (flag {o} {os} {c} {t} h rest) safe p fits free =
      flag-parse_options js c o os p h fits
      ∙ asked-parses rest safe (with_condition c p) tt (IsFree-with_condition c t p free)
  asked-parses (flag_again {o} {os} {c} {t} h rest) safe p fits free =
      flag-parse_options js c o os p h fits
      ∙ rw (with_condition_twice js c p) at (
          asked-parses rest safe (with_condition c p) (Fits-with_condition js c p fits)
            (IsFree-with_condition c t p free))
  asked-parses (in_seconds {o} {a} {os} {c} n h read rest) safe p fits free =
      seconds-parse_options js a n read laws (omega arith) o os p h free
      ∙ asked-parses rest tt (with_time (some (suc n * 1000)) p)
          (Fits-with_time c (some (suc n * 1000)) p fits) tt
      ∙ ap returns (with_condition-with_time c (some (suc n * 1000)) p)
  asked-parses (in_milliseconds {o} {a} {os} {c} n h read rest) safe p fits free =
      milliseconds-parse_options js a n read o os p h free
      ∙ asked-parses rest tt (with_time (some (suc n)) p) (Fits-with_time c (some (suc n)) p fits)
          tt
      ∙ ap returns (with_condition-with_time c (some (suc n)) p)
