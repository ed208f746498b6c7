-- ===== src/KeyCommands/Lifetime.antt =====
-- src/resp/command/key: expire-, pexpire- and ttl-command.ts.
pub mod Laws
pub mod Reading
pub mod Soundness
use unit_redis_ness.Prelude.{ℕ, ℤ, pos, negsuc, ◌+ℤ◌, Bool, Option, none, some, ◌||◌, if◌then◌else◌}
use unit_redis_ness.Number.{Number, Js, nan, infinite, integer, fraction, is_nan, below_one, less}
use unit_redis_ness.DatabaseValue.{DatabaseValue, time_to_live_seconds}
use unit_redis_ness.Token.{Token, number, count}
use unit_redis_ness.Command.{Request, get_param, Store, Command, ◌>>=◌, ◌>>◌, pure, get, put}
use unit_redis_ness.ListCommands.Index.{not_an_integer}

-- `new Date().getTime() + ttl`. The instant of a fraction is read as its integer part, and one that
-- is infinite never comes.
unfoldable pub instant_after : ℕ → Number → Option ℤ
unfolding ◌+ℤ◌
instant_after now (integer z) = some (pos now +ℤ z)
instant_after now (fraction f _) = some (pos now +ℤ f)
instant_after now _ = none

-- `Number(newTtl) < 1 ? -1 : new Date().getTime() + ...`
unfoldable pub new_instant : ℕ → Number → Number → Option ℤ
unfolding instant_after
new_instant now n millis = if below_one n then some (negsuc 0) else instant_after now millis

module _ (js : Js) where
  expire_of : (Number → Number) → Request → Option DatabaseValue → Command Token
  unfolding new_instant
  expire_of scale r none = pure (count 0)
  expire_of scale r (some v) =
      let n = js.number (get_param r 1) in
      if is_nan n || less (js.parse_int (get_param r 1)) n then pure not_an_integer else (do
        put (get_param r 0) (record v { expired_at = new_instant r.now n (scale n) })
        pure (count 1))

  unfoldable pub expire : Request → Command Token
  unfolding expire_of
  expire r = do
    found ← get r (get_param r 0)
    expire_of (λ n. js.mul n (integer (pos 1000))) r found

  unfoldable pub pexpire : Request → Command Token
  unfolding expire_of
  pexpire r = do found ← get r (get_param r 0); expire_of (λ n. n) r found

abbrev pub ttl_of : ℕ → Option DatabaseValue → ℤ
ttl_of now none = negsuc 1
ttl_of now (some v) = time_to_live_seconds v now

unfoldable pub ttl : Request → Command Token
ttl r = do found ← get r (get_param r 0); pure (number (integer (ttl_of r.now found)))
