-- ===== src/KeyCommands/Lifetime/Soundness.antt =====
-- EXPIRE, PEXPIRE and TTL keep the data sound.
use unit_redis_ness.Prelude.{◌||◌, Option, none, some, pos}
use unit_redis_ness.DatabaseValue.{DatabaseValue}
use unit_redis_ness.Number.{Number, Js, integer, is_nan, less}
use unit_redis_ness.Token.{number, count}
use unit_redis_ness.Command.{Request, get_param}
use unit_redis_ness.Soundness.{
  IsSoundItem, Sound, Any, Sound-bind, Sound-pure, Sound-if, Sound-get, Sound-put,
}
use unit_redis_ness.KeyCommands.Lifetime.{
  new_instant, expire_of, expire, pexpire, ttl_of, ttl, not_an_integer,
}

module _ (js : Js) where
  expire_of-Sound :
      (scale : Number → Number) (r : Request) (o : Option DatabaseValue)
      → IsSoundItem o
      → Sound Any (expire_of js scale r o)
  unfolding expire_of
  expire_of-Sound scale r none h = Sound-pure (count 0) tt
  expire_of-Sound scale r (some v) h =
      Sound-if
        (is_nan (js.number (get_param r 1))
          || less (js.parse_int (get_param r 1)) (js.number (get_param r 1)))
        (Sound-pure not_an_integer tt)
        (Sound-bind
          (Sound-put (get_param r 0)
            (record v {
              expired_at =
                  new_instant r.now (js.number (get_param r 1)) (scale (js.number (get_param r 1)));
            })
            h)
          (λ _ _. Sound-pure (count 1) tt))

  pub expire-Sound : (r : Request) → Sound Any (expire js r)
  unfolding expire
  expire-Sound r =
      Sound-bind (Sound-get r (get_param r 0))
        (expire_of-Sound (λ n. js.mul n (integer (pos 1000))) r)

  pub pexpire-Sound : (r : Request) → Sound Any (pexpire js r)
  unfolding pexpire
  pexpire-Sound r = Sound-bind (Sound-get r (get_param r 0)) (expire_of-Sound (λ n. n) r)

pub ttl-Sound : (r : Request) → Sound Any (ttl r)
unfolding ttl
ttl-Sound r =
    Sound-bind (Sound-get r (get_param r 0))
      (λ found _. Sound-pure (number (integer (ttl_of r.now found))) tt)
