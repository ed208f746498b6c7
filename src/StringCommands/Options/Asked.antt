-- ===== src/StringCommands/Options/Asked.antt =====
-- SET, by what its options ask for.
use unit_redis_ness.Prelude.{
  ℕ, ◌<◌, String, ◌≡◌, refl, true, Option, none, some, List, drop, add-pos, arith,
}
use unit_redis_ness.Number.{Js, JsLaws}
use unit_redis_ness.Outcome.{returns}
use unit_redis_ness.DatabaseValue.{DatabaseValue, string}
use unit_redis_ness.Database.{has_lapsed}
use unit_redis_ness.Database.Laws.{view, live, Leaves}
use unit_redis_ness.Token.{response_ok}
use unit_redis_ness.Command.{Request, get_param, Store}
use unit_redis_ness.StringCommands.Options.{Parameters, no_parameters, parse_options, deadline, set}
use unit_redis_ness.StringCommands.Options.Laws.{set_parsed_writes, may_write}
use unit_redis_ness.StringCommands.Options.Grammar.{
  Condition, always, if_absent, if_held, Asks, nothing, flag, flag_again, in_seconds,
  in_milliseconds, Allows, ends, IsInTime,
}
use unit_redis_ness.StringCommands.Options.Parses.{
  with_condition, with_time, Fits, IsFree, asked-parses,
}

Fits-no_parameters : (c : Condition) → Fits c no_parameters
unfolding Fits
Fits-no_parameters always = tt
Fits-no_parameters if_absent = refl
Fits-no_parameters if_held = refl

IsFree-no_parameters : (t : Option ℕ) → IsFree t no_parameters
unfolding IsFree
IsFree-no_parameters none = tt
IsFree-no_parameters (some t) = refl

asked : Condition → Option ℕ → Parameters
asked c t = with_time t (with_condition c no_parameters)

asked-may_write :
    (c : Condition) (t : Option ℕ) (v : Option DatabaseValue)
    → Allows c v
    → may_write (asked c t) v ≡ true
unfolding asked may_write Allows with_time with_condition
asked-may_write always none none h = refl
asked-may_write always (some t) none h = refl
asked-may_write always none (some v) h = refl
asked-may_write always (some t) (some v) h = refl
asked-may_write if_absent none none h = refl
asked-may_write if_absent (some t) none h = refl
asked-may_write if_absent t (some v) h = absurd (ground arith)
asked-may_write if_held t none h = absurd (h refl)
asked-may_write if_held none (some v) h = refl
asked-may_write if_held (some t) (some v) h = refl

IsPositive : Option ℕ → Type 0
IsPositive none = Unit
IsPositive (some t) = 0 < t

Asks-IsPositive :
    {js : Js} {os : List String} {c : Condition} {t : Option ℕ} → Asks js os c t → IsPositive t
unfolding IsPositive
Asks-IsPositive nothing = tt
Asks-IsPositive (flag h rest) = Asks-IsPositive rest
Asks-IsPositive (flag_again h rest) = Asks-IsPositive rest
Asks-IsPositive (in_seconds n h read rest) = omega arith
Asks-IsPositive (in_milliseconds n h read rest) = omega arith

asked-deadline :
    (now : ℕ) (c : Condition) (t : Option ℕ)
    → IsPositive t
    → deadline now (asked c t).ttl ≡ ends now t
unfolding asked deadline IsPositive with_time with_condition
asked-deadline now always none h = refl
asked-deadline now if_absent none h = refl
asked-deadline now if_held none h = refl
asked-deadline now c (some t) h = rw (add-pos now t) (ground arith)

live_until :
    (now : ℕ) (t : Option ℕ) (text : String)
    → live now (some (record { value = string text; expired_at = ends now t }))
      ≡ some (record { value = string text; expired_at = ends now t })
unfolding has_lapsed
live_until now none text = refl
live_until now (some t) text = ground arith

-- SET, where the texts behind the value are options in any order: NX once or more, or XX once or
-- more, or neither, and at most one time to live, EX with a positive whole number of seconds or PX
-- with one of milliseconds, the names in any case, so that the deadline is a safe integer. Where
-- the key holds nothing in the case of NX, or holds a value in the case of XX, SET replies OK, the
-- key holds the text, with a deadline that lies as many milliseconds ahead as were asked for, or
-- with none, and no other key changes.
pub set_writes :
    (js : Js) (laws : JsLaws js) (r : Request) (s : Store) {c : Condition} {t : Option ℕ}
    → Asks js (drop 2 r.params) c t
    → IsInTime r.now t
    → Allows c (view r.now s.db (get_param r 0))
    → ((set js r s).0 ≡ returns response_ok)
      × Leaves r.now s.db
          (set js r s).1.db
          (get_param r 0)
          (some (record { value = string (get_param r 1); expired_at = ends r.now t }))
unfolding asked Fits IsFree
set_writes js laws r s {c} {t} asks safe allowed =
    let parsed : parse_options js (drop 2 r.params) no_parameters ≡ returns (asked c t) =
      asked-parses js laws r.now asks safe no_parameters (Fits-no_parameters c)
        (IsFree-no_parameters t) in
    rw (asked-deadline r.now c t (Asks-IsPositive asks), live_until r.now t (get_param r 1)) at
      (set_parsed_writes js r s (asked c t) parsed
        (asked-may_write c t (view r.now s.db (get_param r 0)) allowed))
