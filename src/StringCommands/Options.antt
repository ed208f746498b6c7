-- ===== src/StringCommands/Options.antt =====
-- src/resp/command/string/set-command.ts: SET and its options.
pub mod Asked
pub mod Grammar
pub mod Laws
pub mod Parses
pub mod Soundness
use unit_redis_ness.Prelude.{
  ℕ, String, Bool, true, false, not, ◌&&◌, Option, none, some, List, [], ◌∷◌, drop, ℤ, pos, eqb_ℤ,
  ◌+ℤ◌, ◌==◌, if◌then◌else◌,
}
use unit_redis_ness.Number.{Number, Js, nan, infinite, integer, fraction, below_one}
use unit_redis_ness.Outcome.{Outcome, returns, throws}
use unit_redis_ness.DatabaseValue.{DatabaseValue, string}
use unit_redis_ness.Database
use unit_redis_ness.Token.{Token, error, null_string, response_ok}
use unit_redis_ness.Command.{Request, get_param, Store, Command, ◌>>=◌, pure}

-- `ttl` is null at first.
pub record Parameters : Type 0 where
  pub if_exists : Bool
  pub if_not_exists : Bool
  pub ttl : Option Number

abbrev pub no_parameters : Parameters
no_parameters = record { if_exists = false; if_not_exists = false; ttl = none }

pub data SetOption : Type 0 where
  ex px nx xx other : SetOption

abbrev pub syntax_error : Outcome Parameters
syntax_error = throws "ERR syntax error"

-- `parameters.ifNotExists = true` and `parameters.ifExists = true`, with their guards.
unfoldable pub with_flag : SetOption → Parameters → Outcome Parameters
with_flag nx p = if p.if_exists then syntax_error else returns (record p { if_not_exists = true })
with_flag xx p = if p.if_not_exists then syntax_error else returns (record p { if_exists = true })
with_flag _ p = syntax_error

and_then : Outcome Parameters → (Parameters → Outcome Parameters) → Outcome Parameters
and_then (returns p) f = f p
and_then (throws m) f = throws m

module _ (js : Js) where
  -- The chain of `match`es.
  unfoldable pub option_of : String → SetOption
  option_of s =
      let o = js.to_lower_case s in
      if o == "ex"
      then ex
      else if o == "px"
      then px
      else if o == "nx"
      then nx
      else if o == "xx"
      then xx
      else other

  -- `parseTtl(...)`, scaled, and stored where no ttl is there yet.
  unfoldable pub with_ttl : (Number → Number) → String → Parameters → Outcome Parameters
  with_ttl scale text p = elim p.ttl [
    | some _ ↦ syntax_error
    | none ↦
        if below_one (js.parse_int text)
        then throws "ERR invalid expire time in set"
        else returns (record p { ttl = some (scale (js.parse_int text)) })
  ]

  abbrev pub seconds : Number → Number
  seconds n = js.mul n (integer (pos 1000))

  -- One option with the parameter behind it: EX and PX take that one too, and go on by `skip`.
  take_option :
      SetOption
      → String
      → Parameters
      → (Parameters → Outcome Parameters)
      → (Parameters → Outcome Parameters)
      → Outcome Parameters
  unfolding with_flag and_then with_ttl
  take_option ex a p skip go = and_then (with_ttl seconds a p) skip
  take_option px a p skip go = and_then (with_ttl (λ n. n) a p) skip
  take_option f a p skip go = and_then (with_flag f p) go

  -- The loop over the parameters from the third on. What EX and PX take reads as the empty text
  -- where there is none.
  unfoldable pub parse_options : List String → Parameters → Outcome Parameters
  unfolding take_option option_of
  parse_options [] p = returns p
  parse_options (o ∷ []) p = take_option (option_of o) "" p returns returns
  parse_options (o ∷ a ∷ rest) p =
      take_option (option_of o) a p (parse_options rest) (parse_options (a ∷ rest))

-- `ttl ? new Date().getTime() + ttl : undefined`. A ttl beyond the doubles is no deadline here.
unfoldable pub deadline : ℕ → Option Number → Option ℤ
deadline now (some (integer z)) = if eqb_ℤ z (pos 0) then none else some (pos now +ℤ z)
deadline now _ = none

abbrev same_deadline : Option ℤ → Option ℤ → Bool
same_deadline none none = true
same_deadline (some a) (some b) = eqb_ℤ a b
same_deadline _ _ = false

-- `saved && saved.toString() === value.toString()` for the text `s` that SET was given: type,
-- value and deadline agree.
unfoldable pub is_saved : Option DatabaseValue → String → Option ℤ → Bool
is_saved none s t = false
is_saved (some v) s t = elim v.value [
  | string w ↦ w == s && same_deadline v.expired_at t
  | _ ↦ false
]

-- saveValue
unfoldable pub save_value :
    Request → Parameters → DatabaseValue → Store → Option DatabaseValue × Database.Database
save_value r p v s =
    if p.if_exists
    then Database.put_if_present r.now s.db (get_param r 0) v
    else if p.if_not_exists
    then Database.put_if_absent r.now s.db (get_param r 0) v
    else (some v, Database.put s.db (get_param r 0) v)

abbrev pub set_reply : Bool → Token
set_reply saved = if saved then response_ok else null_string

set_with : Request → Parameters → Command Token
unfolding deadline is_saved save_value
set_with r p s =
    let t = deadline r.now p.ttl in
    let v : DatabaseValue = record { value = string (get_param r 1); expired_at = t } in
    let (kept, db) = save_value r p v s in
    (returns (set_reply (is_saved kept (get_param r 1) t)), record s { db = db })

-- `catch (ex) { return RedisToken.error(ex.message); }`
set_parsed : Request → Outcome Parameters → Command Token
unfolding set_with
set_parsed r (returns p) = set_with r p
set_parsed r (throws m) = pure (error m)

module _ (js : Js) where
  unfoldable pub set : Request → Command Token
  unfolding parse_options set_parsed
  set r = set_parsed r (parse_options js (drop 2 r.params) no_parameters)
