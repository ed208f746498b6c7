-- ===== src/SetCommands/Soundness.antt =====
-- The commands on one set keep the data sound.
use unit_redis_ness.Prelude.{
  ℕ, zero, suc, ◌-◌, String, Option, none, some, List, [], ◌∷◌, length, drop, if◌then◌else◌,
}
use unit_redis_ness.DatabaseValue.{DatabaseValue, set, of_payload, get_set}
use unit_redis_ness.Token.{array, texts, count}
use unit_redis_ness.Command.{Request, get_param}
use unit_redis_ness.Soundness.{
  IsSoundItem, Sound, Any, any, OnReturn, Sound-bind, Sound-pure, Sound-lift, Sound-get, Sound-put,
  Sound-remove, get_set-IsSetList,
}
use unit_redis_ness.SetCommands.Laws.{IsSetList, add_each-IsSetList, delete_each-IsSetList}
use unit_redis_ness.SetCommands.{
  or_new_set, has, add_each, sadd, delete_each, put_rest, srem_of, srem, scard, sismember, smembers,
}

pub or_new_set-IsSetList :
    (o : Option DatabaseValue) → IsSoundItem o → OnReturn IsSetList (get_set (or_new_set o))
or_new_set-IsSetList none h = get_set-IsSetList (of_payload (set [])) tt
or_new_set-IsSetList (some v) h = get_set-IsSetList v h

pub sadd-Sound : (r : Request) → Sound Any (sadd r)
unfolding sadd
sadd-Sound r = Sound-bind (Sound-get r (get_param r 0)) (λ found h.
    Sound-bind (Sound-lift (get_set (or_new_set found)) (or_new_set-IsSetList found h))
      (λ xs distinct.
        Sound-bind
          (Sound-put (get_param r 0) (of_payload (set (add_each (drop 1 r.params) xs)))
            (add_each-IsSetList (drop 1 r.params) xs distinct))
          (λ _ _. Sound-pure (count (length (add_each (drop 1 r.params) xs) - length xs)) tt)))

put_rest-Sound :
    (key : String) (v : DatabaseValue) (n : ℕ) (ys : List String)
    → IsSetList ys
    → Sound Any (put_rest key v (n, ys))
unfolding put_rest
put_rest-Sound key v zero ys distinct = Sound-pure tt tt
put_rest-Sound key v (suc n) [] distinct = Sound-bind (Sound-remove key) (λ _ _. Sound-pure tt tt)
put_rest-Sound key v (suc n) (y ∷ ys) distinct =
    Sound-put key (record v { value = set (y ∷ ys) }) distinct

srem_of-Sound : (r : Request) (o : Option DatabaseValue) → IsSoundItem o → Sound Any (srem_of r o)
unfolding srem_of
srem_of-Sound r none h = Sound-pure (count 0) tt
srem_of-Sound r (some v) h =
    Sound-bind (Sound-lift (get_set v) (get_set-IsSetList v h)) (λ xs distinct.
      Sound-bind
        (put_rest-Sound (get_param r 0) v (delete_each (drop 1 r.params) xs).0
          (delete_each (drop 1 r.params) xs).1
          (delete_each-IsSetList (drop 1 r.params) xs distinct))
        (λ _ _. Sound-pure (count (delete_each (drop 1 r.params) xs).0) tt))

pub srem-Sound : (r : Request) → Sound Any (srem r)
unfolding srem
srem-Sound r = Sound-bind (Sound-get r (get_param r 0)) (srem_of-Sound r)

pub scard-Sound : (r : Request) → Sound Any (scard r)
unfolding scard
scard-Sound r = Sound-bind (Sound-get r (get_param r 0)) (λ found h.
    Sound-bind (Sound-lift (get_set (or_new_set found)) (any (get_set (or_new_set found))))
      (λ xs _. Sound-pure (count (length xs)) tt))

pub sismember-Sound : (r : Request) → Sound Any (sismember r)
unfolding sismember
sismember-Sound r = Sound-bind (Sound-get r (get_param r 0)) (λ found h.
    Sound-bind (Sound-lift (get_set (or_new_set found)) (any (get_set (or_new_set found))))
      (λ xs _. Sound-pure (if has (get_param r 1) xs then count 1 else count 0) tt))

pub smembers-Sound : (r : Request) → Sound Any (smembers r)
unfolding smembers
smembers-Sound r = Sound-bind (Sound-get r (get_param r 0)) (λ found h.
    Sound-bind (Sound-lift (get_set (or_new_set found)) (any (get_set (or_new_set found))))
      (λ xs _. Sound-pure (array (texts xs)) tt))
