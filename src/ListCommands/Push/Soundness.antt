-- ===== src/ListCommands/Push/Soundness.antt =====
-- LPUSH and RPUSH keep the data sound.
use unit_redis_ness.Prelude.{◌-◌, length, drop}
use unit_redis_ness.DatabaseValue.{list, get_list}
use unit_redis_ness.Token.{count}
use unit_redis_ness.Command.{Request, key_event, repeated, get_param}
use unit_redis_ness.Soundness.{
  Sound, Any, any, Sound-bind, Sound-pure, Sound-lift, Sound-get, Sound-put, Sound-emit,
}
use unit_redis_ness.ListCommands.Push.{or_new_list, unshift_all, push_all, lpush, rpush}

pub lpush-Sound : (r : Request) → Sound Any (lpush r)
unfolding lpush
lpush-Sound r = Sound-bind (Sound-get r (get_param r 0)) (λ found _.
    Sound-bind (Sound-lift (get_list (or_new_list found)) (any (get_list (or_new_list found))))
      (λ old _.
        Sound-bind
          (Sound-put (get_param r 0)
            (record (or_new_list found) { value = list (unshift_all (drop 1 r.params) old) }) tt)
          (λ _ _.
            Sound-bind
              (Sound-emit
                (repeated (length r.params - 1) (key_event r.current_db "lpush" (get_param r 0))))
              (λ _ _. Sound-pure (count (length (unshift_all (drop 1 r.params) old))) tt))))

pub rpush-Sound : (r : Request) → Sound Any (rpush r)
unfolding rpush
rpush-Sound r = Sound-bind (Sound-get r (get_param r 0)) (λ found _.
    Sound-bind (Sound-lift (get_list (or_new_list found)) (any (get_list (or_new_list found))))
      (λ old _.
        Sound-bind
          (Sound-put (get_param r 0)
            (record (or_new_list found) { value = list (push_all (drop 1 r.params) old) }) tt)
          (λ _ _.
            Sound-bind
              (Sound-emit
                (repeated (length r.params - 1) (key_event r.current_db "rpush" (get_param r 0))))
              (λ _ _. Sound-pure (count (length (push_all (drop 1 r.params) old))) tt))))
