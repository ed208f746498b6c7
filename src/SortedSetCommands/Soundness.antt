-- ===== src/SortedSetCommands/Soundness.antt =====
-- ZCARD and ZSCORE keep the data sound.
use unit_redis_ness.Prelude.{Option, none, some}
use unit_redis_ness.Number.{Js}
use unit_redis_ness.DatabaseValue.{DatabaseValue, get_sorted_set}
use unit_redis_ness.SortedSet
use unit_redis_ness.Token.{count, null_string}
use unit_redis_ness.Command.{Request, get_param}
use unit_redis_ness.Soundness.{Sound, Any, any, Sound-bind, Sound-get, Sound-lift, Sound-pure}
use unit_redis_ness.SortedSetCommands.{or_new_sorted_set, zcard, score_text, zscore_of, zscore}

pub zcard-Sound : (r : Request) → Sound Any (zcard r)
unfolding zcard
zcard-Sound r = Sound-bind (Sound-get r (get_param r 0)) (λ found _.
    Sound-bind
      (Sound-lift (get_sorted_set (or_new_sorted_set found))
        (any (get_sorted_set (or_new_sorted_set found))))
      (λ s _. Sound-pure (count (SortedSet.card s)) tt))

module _ (js : Js) where
  zscore_of-Sound : (r : Request) (o : Option DatabaseValue) → Sound Any (zscore_of js r o)
  unfolding zscore_of
  zscore_of-Sound r none = Sound-pure null_string tt
  zscore_of-Sound r (some v) =
      Sound-bind (Sound-lift (get_sorted_set v) (any (get_sorted_set v)))
        (λ s _. Sound-pure (score_text js (SortedSet.get s (get_param r 1))) tt)

  pub zscore-Sound : (r : Request) → Sound Any (zscore js r)
  unfolding zscore
  zscore-Sound r = Sound-bind (Sound-get r (get_param r 0)) (λ found _. zscore_of-Sound r found)
