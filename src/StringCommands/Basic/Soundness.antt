-- ===== src/StringCommands/Basic/Soundness.antt =====
-- GET, GETSET, SETNX, MGET and MSET keep the data sound.
use unit_redis_ness.Prelude.{◌%◌, String, Option, none, some, List, [], ◌∷◌, length, eqb}
use unit_redis_ness.DatabaseValue.{DatabaseValue, string, of_payload, get_string}
use unit_redis_ness.Token.{end, token, array, error, text, count, null_string, response_ok}
use unit_redis_ness.Command.{Request, get_param}
use unit_redis_ness.Soundness.{
  Sound, Any, any, Sound-bind, Sound-pure, Sound-lift, Sound-if, Sound-get, Sound-put, get-IsSound,
}
use unit_redis_ness.Database
use unit_redis_ness.StringCommands.Basic.{
  item_or_null, get_command, getset_of, getset, exists, setnx, text_of, mget_all, mget, mset_all,
  mset,
}

pub get_command-Sound : (r : Request) → Sound Any (get_command r)
unfolding get_command
get_command-Sound r =
    Sound-bind (Sound-get r (get_param r 0)) (λ found _. Sound-pure (item_or_null found) tt)

getset_of-Sound : (o : Option DatabaseValue) → Sound Any (getset_of o)
unfolding getset_of
getset_of-Sound none = Sound-pure null_string tt
getset_of-Sound (some v) =
    Sound-bind (Sound-lift (get_string v) (any (get_string v))) (λ s _. Sound-pure (text s) tt)

pub getset-Sound : (r : Request) → Sound Any (getset r)
unfolding getset
getset-Sound r = Sound-bind (Sound-get r (get_param r 0)) (λ found _.
    Sound-bind (getset_of-Sound found) (λ result _.
      Sound-bind (Sound-put (get_param r 0) (of_payload (string (get_param r 1))) tt)
        (λ _ _. Sound-pure result tt)))

exists-Sound : (r : Request) (key : String) → Sound Any (exists r key)
unfolding exists Database.exists
exists-Sound r key = record { run = λ s h. (get-IsSound s.db h r.now key, tt) }

pub setnx-Sound : (r : Request) → Sound Any (setnx r)
unfolding setnx
setnx-Sound r = Sound-bind (exists-Sound r (get_param r 0)) (λ present _.
    Sound-if present (Sound-pure (count 0) tt) (
      Sound-bind (Sound-put (get_param r 0) (of_payload (string (get_param r 1))) tt)
        (λ _ _. Sound-pure (count 1) tt)))

mget_all-Sound : (r : Request) (keys : List String) → Sound Any (mget_all r keys)
unfolding mget_all
mget_all-Sound r [] = Sound-pure end tt
mget_all-Sound r (key ∷ keys) = Sound-bind (Sound-get r key) (λ found _.
    Sound-bind (mget_all-Sound r keys) (λ rest _. Sound-pure (token (text_of found) rest) tt))

pub mget-Sound : (r : Request) → Sound Any (mget r)
unfolding mget
mget-Sound r = Sound-bind (mget_all-Sound r r.params) (λ results _. Sound-pure (array results) tt)

mset_all-Sound : (params : List String) → Sound Any (mset_all params)
unfolding mset_all
mset_all-Sound [] = Sound-pure tt tt
mset_all-Sound (key ∷ []) = Sound-pure tt tt
mset_all-Sound (key ∷ v ∷ rest) =
    Sound-bind (Sound-put key (of_payload (string v)) tt) (λ _ _. mset_all-Sound rest)

pub mset-Sound : (r : Request) → Sound Any (mset r)
unfolding mset
mset-Sound r =
    Sound-if (eqb (length r.params % 2) 0)
      (Sound-bind (mset_all-Sound r.params) (λ _ _. Sound-pure response_ok tt))
      (Sound-pure (error "ERR wrong number of arguments for mset") tt)
