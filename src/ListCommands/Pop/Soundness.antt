-- ===== src/ListCommands/Pop/Soundness.antt =====
-- LLEN, LPOP, RPOP and RPOPLPUSH keep the data sound.
use unit_redis_ness.Prelude.{String, Option, none, some, length, ◌==◌}
use unit_redis_ness.DatabaseValue.{DatabaseValue, list, get_list}
use unit_redis_ness.Number.{Number}
use unit_redis_ness.Token.{Token, count, null_string}
use unit_redis_ness.Command.{Request, get_param}
use unit_redis_ness.Soundness.{
  Sound, Any, any, Sound-bind, Sound-pure, Sound-lift, Sound-if, Sound-get, Sound-put, Sound-emit,
}
use unit_redis_ness.ListCommands.Save.Soundness.{save-Sound}
use unit_redis_ness.ListCommands.Pop.{
  llen_of, llen, shift, pop, lpop_of, lpop, pop_events, rpop_of, rpop, unshift, transfer,
  rpoplpush_of, rpoplpush, or_new_list,
}

llen_of-Sound : (o : Option DatabaseValue) → Sound Any (llen_of o)
unfolding llen_of
llen_of-Sound none = Sound-pure (count 0) tt
llen_of-Sound (some v) =
    Sound-bind (Sound-lift (get_list v) (any (get_list v)))
      (λ xs _. Sound-pure (count (length xs)) tt)

pub llen-Sound : (r : Request) → Sound Any (llen r)
unfolding llen
llen-Sound r = Sound-bind (Sound-get r (get_param r 0)) (λ found _. llen_of-Sound found)

lpop_of-Sound : (key : String) (o : Option DatabaseValue) → Sound Any (lpop_of key o)
unfolding lpop_of
lpop_of-Sound key none = Sound-pure null_string tt
lpop_of-Sound key (some v) = Sound-bind (Sound-lift (get_list v) (any (get_list v))) (λ xs _.
    Sound-bind (save-Sound key v (shift xs).1) (λ _ _. Sound-pure (Token.string (shift xs).0) tt))

pub lpop-Sound : (r : Request) → Sound Any (lpop r)
unfolding lpop
lpop-Sound r =
    Sound-bind (Sound-get r (get_param r 0)) (λ found _. lpop_of-Sound (get_param r 0) found)

rpop_of-Sound : (n : Number) (key : String) (o : Option DatabaseValue) → Sound Any (rpop_of n key o)
unfolding rpop_of
rpop_of-Sound n key none = Sound-pure null_string tt
rpop_of-Sound n key (some v) = Sound-bind (Sound-lift (get_list v) (any (get_list v))) (λ xs _.
    Sound-bind (save-Sound key v (pop xs).1) (λ _ _.
      Sound-bind (Sound-emit (pop_events n key (pop xs).1))
        (λ _ _. Sound-pure (Token.string (pop xs).0) tt)))

pub rpop-Sound : (r : Request) → Sound Any (rpop r)
unfolding rpop
rpop-Sound r =
    Sound-bind (Sound-get r (get_param r 0))
      (λ found _. rpop_of-Sound r.current_db (get_param r 0) found)

transfer-Sound : (src dst : String) (from to : DatabaseValue) → Sound Any (transfer src dst from to)
unfolding transfer
transfer-Sound src dst from to = Sound-bind (Sound-lift (get_list to) (any (get_list to))) (λ ys _.
    Sound-bind (Sound-lift (get_list from) (any (get_list from))) (λ xs _.
      Sound-if (src == dst)
        (Sound-bind (Sound-put dst (record to { value = list (unshift (pop xs).0 (pop xs).1) }) tt)
          (λ _ _. Sound-pure (Token.string (pop xs).0) tt))
        (Sound-bind (Sound-put dst (record to { value = list (unshift (pop xs).0 ys) }) tt) (λ _ _.
          Sound-bind (save-Sound src from (pop xs).1)
            (λ _ _. Sound-pure (Token.string (pop xs).0) tt)))))

rpoplpush_of-Sound : (r : Request) (o : Option DatabaseValue) → Sound Any (rpoplpush_of r o)
unfolding rpoplpush_of
rpoplpush_of-Sound r none = Sound-pure null_string tt
rpoplpush_of-Sound r (some from) =
    Sound-bind (Sound-get r (get_param r 1))
      (λ to _. transfer-Sound (get_param r 0) (get_param r 1) from (or_new_list to))

pub rpoplpush-Sound : (r : Request) → Sound Any (rpoplpush r)
unfolding rpoplpush
rpoplpush-Sound r = Sound-bind (Sound-get r (get_param r 0)) (λ found _. rpoplpush_of-Sound r found)
