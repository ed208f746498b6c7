-- ===== src/StringCommands/Counter.antt =====
-- src/resp/command/string: incr-command.ts (INCR, DECR) and incrby-command.ts (INCRBY, DECRBY).
-- `sign` is the constructor's argument: 1, or -1 for DECR and DECRBY.
pub mod Laws
pub mod Soundness
use unit_redis_ness.Prelude.{
  ℕ, ℤ, pos, negsuc, Bool, true, false, Option, none, some, String, eqb_ℤ, if◌then◌else◌,
}
use unit_redis_ness.Number.{Number, Js, integer, max_safe, abs_below, abs_within}
use unit_redis_ness.DatabaseValue.{
  DatabaseValue, string, of_payload, get_string, time_to_live_millis,
}
use unit_redis_ness.Token.{Token, number, error}
use unit_redis_ness.Command.{Request, get_param, Store, Command, ◌>>=◌, ◌>>◌, pure, lift, get, put}

abbrev pub would_overflow : Token
would_overflow = error "ERR increment or decrement would overflow"

-- `ttl !== -1 ? ttl : undefined`, the third argument of the new DatabaseValue.
unfoldable pub new_deadline : DatabaseValue → ℕ → Option ℤ
unfolding time_to_live_millis
new_deadline v now =
    if eqb_ℤ (time_to_live_millis v now) (negsuc 0) then none else some (time_to_live_millis v now)

module _ (js : Js) where
  -- `db.put(key, value); return RedisToken.integer(Number(value.getString()));`
  store_number : Request → Number → Option ℤ → Command Token
  store_number r n t = do
    put (get_param r 0) (record { value = string (js.print n); expired_at = t })
    pure (number (js.number (js.print n)))

  incr_of : ℤ → Request → Option DatabaseValue → Command Token
  unfolding new_deadline store_number
  incr_of sign r none = store_number r (integer sign) none
  incr_of sign r (some v) = do
    s ← lift (get_string v)
    if abs_below (js.number s) max_safe
        then store_number r (js.add (js.number s) (integer sign)) (new_deadline v r.now)
        else pure would_overflow

  unfoldable pub incr : ℤ → Request → Command Token
  unfolding incr_of
  incr sign r = do found ← get r (get_param r 0); incr_of sign r found

  incrby_of : ℤ → Request → Option DatabaseValue → Command Token
  unfolding new_deadline store_number
  incrby_of sign r none = store_number r (js.mul (integer sign) (js.number (get_param r 1))) none
  incrby_of sign r (some v) = do
    s ← lift (get_string v)
    if abs_within (js.add (js.number s) (js.number (get_param r 1))) max_safe
        then store_number r
            (js.add (js.number s) (js.mul (integer sign) (js.number (get_param r 1))))
            (new_deadline v r.now)
        else pure would_overflow

  unfoldable pub incrby : ℤ → Request → Command Token
  unfolding incrby_of
  incrby sign r = do found ← get r (get_param r 0); incrby_of sign r found
