-- ===== src/ListCommands/Rem/Soundness.antt =====
-- LREM keeps the data sound.
use unit_redis_ness.Prelude.{Option, none, some, length, ℤ}
use unit_redis_ness.DatabaseValue.{DatabaseValue, get_list}
use unit_redis_ness.Number.{Js}
use unit_redis_ness.Token.{count}
use unit_redis_ness.Command.{Request, get_param}
use unit_redis_ness.Soundness.{
  Sound, Any, any, Sound-bind, Sound-pure, Sound-lift, Sound-option, Sound-get,
}
use unit_redis_ness.ListCommands.Save.Soundness.{save-Sound}
use unit_redis_ness.ListCommands.Rem.{delete_each, removed, lrem_of, count_of, lrem, not_an_integer}

lrem_of-Sound : (r : Request) (n : ℤ) (o : Option DatabaseValue) → Sound Any (lrem_of r n o)
unfolding lrem_of
lrem_of-Sound r n none = Sound-pure (count 0) tt
lrem_of-Sound r n (some v) = Sound-bind (Sound-lift (get_list v) (any (get_list v))) (λ xs _.
    Sound-bind (save-Sound (get_param r 0) v (delete_each (removed n (get_param r 2) xs) xs))
      (λ _ _. Sound-pure (count (length (removed n (get_param r 2) xs))) tt))

module _ (js : Js) where
  pub lrem-Sound : (r : Request) → Sound Any (lrem js r)
  unfolding lrem
  lrem-Sound r = Sound-bind (Sound-get r (get_param r 0)) (λ found _.
      Sound-option (count_of js (js.number (get_param r 1))) (Sound-pure not_an_integer tt)
        (λ n. lrem_of-Sound r n found))
