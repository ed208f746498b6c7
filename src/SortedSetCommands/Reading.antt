-- ===== src/SortedSetCommands/Reading.antt =====
-- ZCARD, ZSCORE: commands that read.
use unit_redis_ness.Prelude.{Option, none, some}
use unit_redis_ness.DatabaseValue.{DatabaseValue, get_sorted_set}
use unit_redis_ness.Number.{Js}
use unit_redis_ness.Token.{count, null_string}
use unit_redis_ness.Command.{Request, get_param}
use unit_redis_ness.Command.Reads.{Reads, Reads-get, Reads-bind, Reads-pure, Reads-lift}
use unit_redis_ness.SortedSet
use unit_redis_ness.SortedSetCommands.{or_new_sorted_set, score_text, zcard, zscore, zscore_of}

pub zcard-Reads : (r : Request) → Reads r (zcard r)
unfolding zcard
zcard-Reads r = Reads-bind (Reads-get r (get_param r 0)) (λ found.
    Reads-bind (Reads-lift (get_sorted_set (or_new_sorted_set found)))
      (λ s. Reads-pure (count (SortedSet.card s))))

module _ (js : Js) where
  zscore_of-Reads : (r : Request) (o : Option DatabaseValue) → Reads r (zscore_of js r o)
  unfolding zscore_of
  zscore_of-Reads r none = Reads-pure null_string
  zscore_of-Reads r (some v) =
      Reads-bind (Reads-lift (get_sorted_set v))
        (λ s. Reads-pure (score_text js (SortedSet.get s (get_param r 1))))

  pub zscore-Reads : (r : Request) → Reads r (zscore js r)
  unfolding zscore
  zscore-Reads r = Reads-bind (Reads-get r (get_param r 0)) (λ found. zscore_of-Reads r found)
