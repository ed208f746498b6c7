-- ===== src/HashCommands/Soundness.antt =====
-- The hash commands keep the data sound.
use unit_redis_ness.Prelude.{◌%◌, Option, none, some, drop, eqb}
use unit_redis_ness.DatabaseValue.{DatabaseValue, hash, of_payload, get_hash}
use unit_redis_ness.Token.{end, token, array, error, count, null_string}
use unit_redis_ness.Command.{Request, get_param, get_length}
use unit_redis_ness.Soundness.{
  IsSoundItem, Sound, Any, any, OnReturn, Sound-bind, Sound-pure, Sound-lift, Sound-if, Sound-get,
  Sound-put, get_hash-IsDistinct,
}
use unit_redis_ness.Dictionary.Laws.{IsDistinct}
use unit_redis_ness.HashCommands.Laws.{set_fields-IsDistinct}
use unit_redis_ness.Dictionary
use unit_redis_ness.HashCommands.{
  field_value, hget_of, hget, fields, hgetall_of, hgetall, set_fields, or_new_hash, hset_of, hset,
}

hget_of-Sound : (r : Request) (o : Option DatabaseValue) → Sound Any (hget_of r o)
unfolding hget_of
hget_of-Sound r none = Sound-pure null_string tt
hget_of-Sound r (some item) =
    Sound-bind (Sound-lift (get_hash item) (any (get_hash item)))
      (λ h _. Sound-pure (field_value (Dictionary.get h (get_param r 1))) tt)

pub hget-Sound : (r : Request) → Sound Any (hget r)
unfolding hget
hget-Sound r = Sound-bind (Sound-get r (get_param r 0)) (λ found _. hget_of-Sound r found)

hgetall_of-Sound : (o : Option DatabaseValue) → Sound Any (hgetall_of o)
unfolding hgetall_of
hgetall_of-Sound none = Sound-pure (array (token null_string end)) tt
hgetall_of-Sound (some item) =
    Sound-bind (Sound-lift (get_hash item) (any (get_hash item)))
      (λ h _. Sound-pure (array (fields h.items)) tt)

pub hgetall-Sound : (r : Request) → Sound Any (hgetall r)
unfolding hgetall
hgetall-Sound r = Sound-bind (Sound-get r (get_param r 0)) (λ found _. hgetall_of-Sound found)

or_new_hash-IsDistinct :
    (o : Option DatabaseValue)
    → IsSoundItem o
    → OnReturn (λ h. IsDistinct h.items) (get_hash (or_new_hash o))
or_new_hash-IsDistinct none h = get_hash-IsDistinct (of_payload (hash Dictionary.empty)) tt
or_new_hash-IsDistinct (some item) h = get_hash-IsDistinct item h

hset_of-Sound : (r : Request) (o : Option DatabaseValue) → IsSoundItem o → Sound Any (hset_of r o)
unfolding hset_of
hset_of-Sound r found h =
    Sound-bind (Sound-lift (get_hash (or_new_hash found)) (or_new_hash-IsDistinct found h))
      (λ old distinct.
        Sound-bind
          (Sound-put (get_param r 0) (of_payload (hash (set_fields (drop 1 r.params) old).1))
            (set_fields-IsDistinct (drop 1 r.params) old distinct))
          (λ _ _. Sound-pure (count (set_fields (drop 1 r.params) old).0) tt))

pub hset-Sound : (r : Request) → Sound Any (hset r)
unfolding hset
hset-Sound r =
    Sound-if (eqb (get_length r % 2) 1) (Sound-bind (Sound-get r (get_param r 0)) (hset_of-Sound r))
      (Sound-pure (error "ERR wrong number of arguments for hset") tt)
