-- ===== src/KeyCommands/Names/Soundness.antt =====
-- DEL, EXISTS, RENAME, RENAMENX and TYPE keep the data sound.
use unit_redis_ness.Prelude.{suc, ◌+◌, String, Option, none, some, List, [], ◌∷◌, if◌then◌else◌}
use unit_redis_ness.DatabaseValue.{DatabaseValue}
use unit_redis_ness.Token.{text, count, response_ok}
use unit_redis_ness.Command.{Request, get_param}
use unit_redis_ness.Soundness.{
  Sound, Any, Sound-bind, Sound-pure, Sound-if, Sound-get, Sound-remove, get-IsSound,
  rename-IsSound,
}
use unit_redis_ness.Database
use unit_redis_ness.KeyCommands.Names
use unit_redis_ness.KeyCommands.Names.{
  one_if_some, del_all, del, exists_at, exists_all, exists, rename_at, no_such_key, rename_of,
  rename, renamenx_of, renamenx, type_name, type_of,
}

del_all-Sound : (keys : List String) → Sound Any (del_all keys)
unfolding del_all
del_all-Sound [] = Sound-pure 0 tt
del_all-Sound (key ∷ keys) =
    Sound-bind (Sound-remove key) (λ item _.
      Sound-bind (del_all-Sound keys) (λ rest _. Sound-pure (one_if_some item + rest) tt))

pub del-Sound : (r : Request) → Sound Any (del r)
unfolding del
del-Sound r = Sound-bind (del_all-Sound r.params) (λ n _. Sound-pure (count n) tt)

exists_at-Sound : (r : Request) (key : String) → Sound Any (exists_at r key)
unfolding Database.exists
exists_at-Sound r key = record { run = λ s h. (get-IsSound s.db h r.now key, tt) }

exists_all-Sound : (r : Request) (keys : List String) → Sound Any (exists_all r keys)
unfolding exists_all
exists_all-Sound r [] = Sound-pure 0 tt
exists_all-Sound r (key ∷ keys) = Sound-bind (exists_at-Sound r key) (λ present _.
    Sound-bind (exists_all-Sound r keys)
      (λ rest _. Sound-pure (if present then suc rest else rest) tt))

pub exists-Sound : (r : Request) → Sound Any (exists r)
unfolding exists
exists-Sound r = Sound-bind (exists_all-Sound r r.params) (λ n _. Sound-pure (count n) tt)

rename_at-Sound : (from to : String) → Sound Any (rename_at from to)
rename_at-Sound from to = record { run = λ s h. (rename-IsSound s.db h from to, tt) }

rename_of-Sound : (r : Request) (o : Option DatabaseValue) → Sound Any (rename_of r o)
unfolding rename_of
rename_of-Sound r none = Sound-pure no_such_key tt
rename_of-Sound r (some v) =
    Sound-bind (rename_at-Sound (get_param r 0) (get_param r 1)) (λ _ _. Sound-pure response_ok tt)

pub rename-Sound : (r : Request) → Sound Any (rename r)
unfolding rename
rename-Sound r = Sound-bind (Sound-get r (get_param r 0)) (λ found _. rename_of-Sound r found)

renamenx_of-Sound : (r : Request) (o : Option DatabaseValue) → Sound Any (renamenx_of r o)
unfolding renamenx_of
renamenx_of-Sound r none = Sound-pure no_such_key tt
renamenx_of-Sound r (some v) = Sound-bind (exists_at-Sound r (get_param r 1)) (λ present _.
    Sound-if present (Sound-pure (count 0) tt) (
      Sound-bind (rename_at-Sound (get_param r 0) (get_param r 1))
        (λ _ _. Sound-pure (count 1) tt)))

pub renamenx-Sound : (r : Request) → Sound Any (renamenx r)
unfolding renamenx
renamenx-Sound r = Sound-bind (Sound-get r (get_param r 0)) (λ found _. renamenx_of-Sound r found)

pub type-Sound : (r : Request) → Sound Any (Names.type r)
unfolding Names.type
type-Sound r =
    Sound-bind (Sound-get r (get_param r 0))
      (λ found _. Sound-pure (text (type_name (type_of found))) tt)
