-- ===== src/SetCommands/Several/Soundness.antt =====
-- The commands on several sets keep the data sound.
use unit_redis_ness.Prelude.{
  String, refl, Bool, true, false, Option, none, some, List, [], ◌∷◌, ◌++◌, length, drop, ◌==◌,
  if◌then◌else◌, Bool-cases, inl, inr,
}
use unit_redis_ness.Outcome.{returns, throws}
use unit_redis_ness.DatabaseValue.{DatabaseValue, set, of_payload, get_string, get_set, wrong_type}
use unit_redis_ness.Number.{same}
use unit_redis_ness.Token.{array, error, texts, count}
use unit_redis_ness.Command.{Request, get_param}
use unit_redis_ness.Soundness.{
  IsSoundPayload, IsSoundItem, Sound, Any, any, OnReturn, Sound-bind, Sound-pure, Sound-lift,
  Sound-if, Sound-option, Sound-get, Sound-put, get-IsSound, get_set-IsSetList,
}
use unit_redis_ness.SetCommands.Laws.{
  IsSetList, add_each-IsSetList, delete-IsSetList, append-IsSetList,
}
use unit_redis_ness.Database
use unit_redis_ness.SetCommands.Several.{
  as_set, gather, gather_all, minus, exists_at, sdiff_of, sdiff, members, refused, unite, union,
  array_of, stored_union, count_of, sunion, sunionstore, undefined_get_string, and_also, other_sets,
  candidates, intersect, intersection_of, intersection, sinter, store_intersection, sinterstore,
  move_into, smove_of, smove, or_new_set, has, add_each, delete, Members,
}

exists_at-Sound : (r : Request) (key : String) → Sound Any (exists_at r key)
unfolding Database.exists
exists_at-Sound r key = record { run = λ s h. (get-IsSound s.db h r.now key, tt) }

gather_all-Sound : (r : Request) (keys all : List String) → Sound Any (gather_all r keys all)
unfolding gather_all
gather_all-Sound r [] all = Sound-pure all tt
gather_all-Sound r (key ∷ keys) all =
    Sound-bind (Sound-get r key) (λ found _. gather_all-Sound r keys (gather (as_set found) all))

sdiff_of-Sound : (r : Request) (o : Option DatabaseValue) → Sound Any (sdiff_of r o)
unfolding sdiff_of
sdiff_of-Sound r found = Sound-bind (gather_all-Sound r (drop 1 r.params) []) (λ out _.
    Sound-bind (Sound-lift (get_set (or_new_set found)) (any (get_set (or_new_set found))))
      (λ xs _. Sound-pure (array (texts (minus xs out))) tt))

pub sdiff-Sound : (r : Request) → Sound Any (sdiff r)
unfolding sdiff
sdiff-Sound r = Sound-bind (exists_at-Sound r (get_param r 0)) (λ there _.
    Sound-if there (Sound-bind (Sound-get r (get_param r 0)) (λ found _. sdiff_of-Sound r found))
      (Sound-pure (array (texts [])) tt))

unite-Sound : (r : Request) (keys all : List String) → Sound Any (unite r keys all)
unfolding unite
unite-Sound r [] all = Sound-pure (members all) tt
unite-Sound r (key ∷ keys) all = Sound-bind (Sound-get r key) (λ found _.
    Sound-option (as_set found) (Sound-pure refused tt) (λ m. unite-Sound r keys (add_each m all)))

union-Sound : (r : Request) (keys : List String) → Sound Any (union r keys)
unfolding union
union-Sound r [] = Sound-pure (members []) tt
union-Sound r (key ∷ keys) =
    Sound-bind (exists_at-Sound r key)
      (λ there _. Sound-if there (unite-Sound r (key ∷ keys) []) (Sound-pure (members []) tt))

pub sunion-Sound : (r : Request) → Sound Any (sunion r)
unfolding sunion
sunion-Sound r = Sound-bind (union-Sound r r.params) (λ result _. Sound-pure (array_of result) tt)

stored_union-IsSetList : (o : Members) → IsSetList (stored_union o)
unfolding has
stored_union-IsSetList (members m) = add_each-IsSetList m [] tt
stored_union-IsSetList refused = (refl, tt)

pub sunionstore-Sound : (r : Request) → Sound Any (sunionstore r)
unfolding sunionstore
sunionstore-Sound r = Sound-bind (union-Sound r (drop 1 r.params)) (λ result _.
    Sound-bind
      (Sound-put (get_param r 0) (of_payload (set (stored_union result)))
        (stored_union-IsSetList result))
      (λ _ _. Sound-pure (count_of result) tt))

other_sets-Sound : (r : Request) (keys : List String) → Sound Any (other_sets r keys)
unfolding other_sets
other_sets-Sound r [] = Sound-pure (some []) tt
other_sets-Sound r (key ∷ keys) = Sound-bind (Sound-get r key) (λ found _.
    Sound-option found (Sound-lift (throws undefined_get_string) tt) (λ v.
      Sound-option (as_set (some v))
        (Sound-bind (Sound-lift (get_string v) (any (get_string v))) (λ text _. Sound-pure none tt))
        (λ m. Sound-bind (other_sets-Sound r keys) (λ rest _. Sound-pure (and_also m rest) tt))))

intersect-Sound :
    (v : DatabaseValue) (xs : List String) (o : Option (List (List String)))
    → Sound Any (intersect v xs o)
unfolding intersect
intersect-Sound v xs none = Sound-pure refused tt
intersect-Sound v xs (some others) =
    Sound-bind (Sound-lift (get_string v) (any (get_string v)))
      (λ text _. Sound-pure (members (candidates xs others)) tt)

intersection_of-Sound :
    (r : Request) (keys : List String) (o : Option DatabaseValue)
    → Sound Any (intersection_of r keys o)
unfolding intersection_of
intersection_of-Sound r keys none = Sound-pure (members []) tt
intersection_of-Sound r keys (some v) =
    Sound-option (as_set (some v)) (Sound-pure refused tt)
      (λ xs. Sound-bind (other_sets-Sound r keys) (λ others _. intersect-Sound v xs others))

intersection-Sound : (r : Request) (keys : List String) → Sound Any (intersection r keys)
unfolding intersection
intersection-Sound r [] = Sound-pure (members []) tt
intersection-Sound r (key ∷ keys) =
    Sound-bind (Sound-get r key) (λ found _. intersection_of-Sound r keys found)

pub sinter-Sound : (r : Request) → Sound Any (sinter r)
unfolding sinter
sinter-Sound r =
    Sound-bind (intersection-Sound r r.params) (λ result _. Sound-pure (array_of result) tt)

store_intersection-Sound : (r : Request) (o : Members) → Sound Any (store_intersection r o)
unfolding store_intersection
store_intersection-Sound r refused = Sound-pure (error wrong_type) tt
store_intersection-Sound r (members m) =
    Sound-bind
      (Sound-put (get_param r 0) (of_payload (set (add_each m []))) (add_each-IsSetList m [] tt))
      (λ _ _. Sound-pure (count (length m)) tt)

pub sinterstore-Sound : (r : Request) → Sound Any (sinterstore r)
unfolding sinterstore
sinterstore-Sound r =
    Sound-bind (intersection-Sound r (drop 1 r.params))
      (λ result _. store_intersection-Sound r result)

chosen :
    (b : Bool) (xs ys : List String)
    → IsSetList xs
    → IsSetList ys
    → IsSetList (if b then xs else ys)
chosen true xs ys h k = h
chosen false xs ys h k = k

move_into-Sound :
    (from to m : String) (xs ys : List String)
    → IsSetList xs
    → IsSetList ys
    → Sound Any (move_into from to m xs ys)
unfolding move_into
move_into-Sound from to m xs ys h k = elim (Bool-cases (has m ys)) [
  | inl there ↦
      rw there
        (Sound-bind (Sound-put from (of_payload (set xs)) h) (λ _ _. Sound-pure (count 1) tt))
  | inr fresh ↦
      let grown = append-IsSetList m ys fresh k in
      rw fresh (
        Sound-bind (Sound-put to (of_payload (set (ys ++ m ∷ []))) grown) (λ _ _.
          Sound-bind
            (Sound-put from (of_payload (set (if from == to then ys ++ m ∷ [] else xs)))
              (chosen (from == to) (ys ++ m ∷ []) xs grown h))
            (λ _ _. Sound-pure (count 1) tt)))
]

target :
    (from to m : String) (xs : List String) (w : DatabaseValue)
    → IsSetList xs
    → IsSoundPayload w.value
    → OnReturn IsSetList (if from == to then returns (delete m xs) else get_set w)
target from to m xs w h k = elim (Bool-cases (from == to)) [
  | inl same ↦ rw same (delete-IsSetList m xs h)
  | inr differ ↦ rw differ (get_set-IsSetList w k)
]

smove_of-Sound :
    (from to m : String) (v w : DatabaseValue)
    → IsSoundPayload v.value
    → IsSoundPayload w.value
    → Sound Any (smove_of from to m v w)
unfolding smove_of
smove_of-Sound from to m v w h k =
    Sound-bind (Sound-lift (get_set v) (get_set-IsSetList v h)) (λ xs distinct.
      Sound-if (has m xs)
        (Sound-bind
          (Sound-put from (record v { value = set (delete m xs) }) (delete-IsSetList m xs distinct))
          (λ _ _.
            Sound-bind
              (Sound-lift (if from == to then returns (delete m xs) else get_set w)
                (target from to m xs w distinct k))
              (λ ys also.
                move_into-Sound from to m (delete m xs) ys (delete-IsSetList m xs distinct) also)))
        (Sound-pure (count 0) tt))

new_set : (o : Option DatabaseValue) → IsSoundItem o → IsSoundPayload (or_new_set o).value
new_set none h = tt
new_set (some v) h = h

pub smove-Sound : (r : Request) → Sound Any (smove r)
unfolding smove
smove-Sound r = Sound-bind (Sound-get r (get_param r 0)) (λ found h.
    Sound-bind (Sound-get r (get_param r 1)) (λ to k.
      smove_of-Sound (get_param r 0) (get_param r 1) (get_param r 2) (or_new_set found)
        (or_new_set to) (new_set found h) (new_set to k)))
