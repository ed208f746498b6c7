-- ===== src/ListCommands/Range/Soundness.antt =====
-- LRANGE and LTRIM keep the data sound.
use unit_redis_ness.Prelude.{Option, none, some, ℤ}
use unit_redis_ness.DatabaseValue.{DatabaseValue, get_list}
use unit_redis_ness.Number.{Js}
use unit_redis_ness.Token.{array, texts, response_ok}
use unit_redis_ness.Command.{Request, get_param}
use unit_redis_ness.Soundness.{
  Sound, Any, any, Sound-bind, Sound-pure, Sound-lift, Sound-option, Sound-get,
}
use unit_redis_ness.ListCommands.Save.Soundness.{save-Sound}
use unit_redis_ness.ListCommands.Range.{
  range_of, trim_of, ltrim_of, ltrim_within, bounds_of, lrange, ltrim, not_an_integer, or_new_list,
}

ltrim_of-Sound :
    (r : Request) (bounds : ℤ × ℤ) (o : Option DatabaseValue) → Sound Any (ltrim_of r bounds o)
unfolding ltrim_of
ltrim_of-Sound r bounds none = Sound-pure response_ok tt
ltrim_of-Sound r bounds (some v) = Sound-bind (Sound-lift (get_list v) (any (get_list v))) (λ xs _.
    Sound-bind (save-Sound (get_param r 0) v (trim_of bounds xs))
      (λ _ _. Sound-pure response_ok tt))

ltrim_within-Sound : (r : Request) (o : Option (ℤ × ℤ)) → Sound Any (ltrim_within r o)
unfolding ltrim_within
ltrim_within-Sound r none = Sound-pure not_an_integer tt
ltrim_within-Sound r (some bounds) =
    Sound-bind (Sound-get r (get_param r 0)) (λ found _. ltrim_of-Sound r bounds found)

module _ (js : Js) where
  pub lrange-Sound : (r : Request) → Sound Any (lrange js r)
  unfolding lrange
  lrange-Sound r = Sound-bind (Sound-get r (get_param r 0)) (λ found _.
      Sound-bind (Sound-lift (get_list (or_new_list found)) (any (get_list (or_new_list found))))
        (λ xs _.
          Sound-option (bounds_of js r) (Sound-pure not_an_integer tt)
            (λ bounds. Sound-pure (array (texts (range_of bounds xs))) tt)))

  pub ltrim-Sound : (r : Request) → Sound Any (ltrim js r)
  unfolding ltrim
  ltrim-Sound r = ltrim_within-Sound r (bounds_of js r)
