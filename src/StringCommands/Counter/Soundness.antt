-- ===== src/StringCommands/Counter/Soundness.antt =====
-- INCR and INCRBY keep the data sound.
use unit_redis_ness.Prelude.{Option, none, some, ℤ}
use unit_redis_ness.DatabaseValue.{DatabaseValue, string, get_string}
use unit_redis_ness.Number.{Number, Js, integer, abs_below, abs_within, max_safe}
use unit_redis_ness.Token.{number}
use unit_redis_ness.Command.{Request, get_param}
use unit_redis_ness.Soundness.{
  Sound, Any, any, Sound-bind, Sound-pure, Sound-lift, Sound-if, Sound-get, Sound-put,
}
use unit_redis_ness.StringCommands.Counter.{
  would_overflow, new_deadline, store_number, incr_of, incr, incrby_of, incrby,
}

module _ (js : Js) where
  store_number-Sound : (r : Request) (n : Number) (t : Option ℤ) → Sound Any (store_number js r n t)
  unfolding store_number
  store_number-Sound r n t =
      Sound-bind
        (Sound-put (get_param r 0) (record { value = string (js.print n); expired_at = t }) tt)
        (λ _ _. Sound-pure (number (js.number (js.print n))) tt)

  incr_of-Sound :
      (sign : ℤ) (r : Request) (o : Option DatabaseValue) → Sound Any (incr_of js sign r o)
  unfolding incr_of
  incr_of-Sound sign r none = store_number-Sound r (integer sign) none
  incr_of-Sound sign r (some v) =
      Sound-bind (Sound-lift (get_string v) (any (get_string v))) (λ s _.
        Sound-if (abs_below (js.number s) max_safe)
          (store_number-Sound r (js.add (js.number s) (integer sign)) (new_deadline v r.now))
          (Sound-pure would_overflow tt))

  pub incr-Sound : (sign : ℤ) (r : Request) → Sound Any (incr js sign r)
  unfolding incr
  incr-Sound sign r =
      Sound-bind (Sound-get r (get_param r 0)) (λ found _. incr_of-Sound sign r found)

  incrby_of-Sound :
      (sign : ℤ) (r : Request) (o : Option DatabaseValue) → Sound Any (incrby_of js sign r o)
  unfolding incrby_of
  incrby_of-Sound sign r none =
      store_number-Sound r (js.mul (integer sign) (js.number (get_param r 1))) none
  incrby_of-Sound sign r (some v) =
      Sound-bind (Sound-lift (get_string v) (any (get_string v))) (λ s _.
        Sound-if (abs_within (js.add (js.number s) (js.number (get_param r 1))) max_safe)
          (store_number-Sound r
            (js.add (js.number s) (js.mul (integer sign) (js.number (get_param r 1))))
            (new_deadline v r.now))
          (Sound-pure would_overflow tt))

  pub incrby-Sound : (sign : ℤ) (r : Request) → Sound Any (incrby js sign r)
  unfolding incrby
  incrby-Sound sign r =
      Sound-bind (Sound-get r (get_param r 0)) (λ found _. incrby_of-Sound sign r found)
