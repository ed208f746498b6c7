-- ===== src/SetCommands/Several.antt =====
-- src/resp/command/set: sdiff-, sunion-, sinter- and smove-command.ts.
pub mod Intersection
pub mod Laws
pub mod Smove
pub mod Union
pub mod Reading
pub mod Soundness
use unit_redis_ness.Prelude.{
  ℕ, suc, String, Bool, true, false, not, Option, none, some, List, [], ◌∷◌, ◌++◌, length, drop,
  ◌==◌, if◌then◌else◌,
}
use unit_redis_ness.Number.{Js}
use unit_redis_ness.Outcome.{Outcome, returns, throws}
use unit_redis_ness.DatabaseValue.{DatabaseValue, set, of_payload, get_set, get_string, wrong_type}
use unit_redis_ness.Database
use unit_redis_ness.Token.{Token, array, error, texts, count}
use unit_redis_ness.Command.{Request, get_param, Store, Command, ◌>>=◌, ◌>>◌, pure, lift, get, put}
use unit_redis_ness.SetCommands.{or_new_set, has, delete, add_each}

-- The members, where the value is there and is a set: `db && db.getType() === DataType.SET`.
abbrev pub as_set : Option DatabaseValue → Option (List String)
as_set none = none
as_set (some v) = elim v.value [ set m ↦ some m | _ ↦ none ]

-- `forEach((element) => { if (!diffset.has(element)) diffset.add(element) })`
abbrev pub gather : Option (List String) → List String → List String
gather none all = all
gather (some m) all = add_each m all

-- The members of the sets at the keys; a key without a set is passed over.
unfoldable pub gather_all : Request → List String → List String → Command (List String)
gather_all r [] all = pure all
gather_all r (key ∷ keys) all = do found ← get r key; gather_all r keys (gather (as_set found) all)

-- The members that are not in `out`, in order.
unfoldable pub minus : List String → List String → List String
minus [] out = []
minus (m ∷ ms) out = let rest = minus ms out in if has m out then rest else m ∷ rest

-- `db.exists(key)`
abbrev pub exists_at : Request → String → Command Bool
exists_at r key s = (
  returns (Database.exists r.now s.db key).0,
  record s { db = (Database.exists r.now s.db key).1 },
)

sdiff_of : Request → Option DatabaseValue → Command Token
unfolding gather_all minus
sdiff_of r found = do
  out ← gather_all r (drop 1 r.params) []
  xs ← lift (get_set (or_new_set found))
  pure (array (texts (minus xs out)))

unfoldable pub sdiff : Request → Command Token
unfolding sdiff_of
sdiff r = do
  there ← exists_at r (get_param r 0)
  if there then (do found ← get r (get_param r 0); sdiff_of r found) else pure (array (texts []))

-- What `union` and `intersection` return: tokens of members, or the one error.
pub data Members : Type 0 where
  members : List String → Members
  refused : Members

-- The loop of `union`. The result lists the members in the order in which they came in.
unfoldable pub unite : Request → List String → List String → Command Members
unite r [] all = pure (members all)
unite r (key ∷ keys) all = do
  found ← get r key
  elim (as_set found) [ none ↦ pure refused | some m ↦ unite r keys (add_each m all) ]

-- `union(start, ...)`, with the parameters from `start` on; the wrapper asks for one at least.
unfoldable pub union : Request → List String → Command Members
unfolding unite
union r [] = pure (members [])
union r (key ∷ keys) = do
  there ← exists_at r key
  if there then unite r (key ∷ keys) [] else pure (members [])

abbrev pub array_of : Members → Token
array_of (members m) = array (texts m)
array_of refused = error wrong_type

-- The new set and the reply of the `store` commands. SUNIONSTORE stores the text of the error as a
-- member.
abbrev pub stored_union : Members → List String
stored_union (members m) = add_each m []
stored_union refused = wrong_type ∷ []

abbrev pub count_of : Members → Token
count_of (members m) = count (length m)
count_of refused = count 1

unfoldable pub sunion : Request → Command Token
unfolding union
sunion r = do result ← union r r.params; pure (array_of result)

unfoldable pub sunionstore : Request → Command Token
unfolding union
sunionstore r = do
  result ← union r (drop 1 r.params)
  put (get_param r 0) (of_payload (set (stored_union result)))
  pure (count_of result)

-- The other keys of SINTER: the sets, or the end of the loop. `dbInter.getString()`, in the
-- argument of a log call, throws where the key is absent or is no text.
abbrev pub undefined_get_string : String
undefined_get_string = "Cannot read properties of undefined (reading 'getString')"

abbrev pub and_also : List String → Option (List (List String)) → Option (List (List String))
and_also m none = none
and_also m (some ms) = some (m ∷ ms)

unfoldable pub other_sets : Request → List String → Command (Option (List (List String)))
other_sets r [] = pure (some [])
other_sets r (key ∷ keys) = do
  found ← get r key
  elim found [
    | none ↦ lift (throws undefined_get_string)
    | some v ↦ elim (as_set (some v)) [
      | none ↦ (do text ← lift (get_string v); pure none)
      | some m ↦ (do rest ← other_sets r keys; pure (and_also m rest))
    ]
  ]

-- `candidate`: every one of the other sets has the element, and there is one; an empty text is
-- falsy.
all_have : String → List (List String) → Bool
all_have m [] = true
all_have m (s ∷ ss) = let rest = all_have m ss in if has m s then rest else false

is_candidate : String → List (List String) → Bool
unfolding all_have
is_candidate m [] = false
is_candidate m (s ∷ ss) = if m == "" then false else all_have m (s ∷ ss)

unfoldable pub candidates : List String → List (List String) → List String
unfolding is_candidate
candidates [] others = []
candidates (m ∷ ms) others =
    let rest = candidates ms others in if is_candidate m others then m ∷ rest else rest

-- The end of `intersection`: `dbKey.getString()`, in the argument of a log call, comes first.
intersect : DatabaseValue → List String → Option (List (List String)) → Command Members
unfolding candidates
intersect v xs none = pure refused
intersect v xs (some others) = do text ← lift (get_string v); pure (members (candidates xs others))

intersection_of : Request → List String → Option DatabaseValue → Command Members
unfolding other_sets intersect
intersection_of r keys none = pure (members [])
intersection_of r keys (some v) = elim (as_set (some v)) [
  | none ↦ pure refused
  | some xs ↦ (do others ← other_sets r keys; intersect v xs others)
]

-- `db.exists(key)` and `db.get(key)` read the same item. The wrapper asks for one key at least.
unfoldable pub intersection : Request → List String → Command Members
unfolding intersection_of
intersection r [] = pure (members [])
intersection r (key ∷ keys) = do found ← get r key; intersection_of r keys found

unfoldable pub sinter : Request → Command Token
unfolding intersection
sinter r = do result ← intersection r r.params; pure (array_of result)

store_intersection : Request → Members → Command Token
store_intersection r refused = pure (error wrong_type)
store_intersection r (members m) = do
  put (get_param r 0) (of_payload (set (add_each m [])))
  pure (count (length m))

unfoldable pub sinterstore : Request → Command Token
unfolding intersection store_intersection
sinterstore r = do result ← intersection r (drop 1 r.params); store_intersection r result

-- SMOVE. The set that the member leaves is changed in place, before the other one is read; both
-- are one object where the keys are equal.
unfoldable pub move_into : String → String → String → List String → List String → Command Token
move_into from to m xs ys =
    if has m ys then (do put from (of_payload (set xs)); pure (count 1)) else (do
      put to (of_payload (set (ys ++ m ∷ [])))
      put from (of_payload (set (if from == to then ys ++ m ∷ [] else xs)))
      pure (count 1))

smove_of : String → String → String → DatabaseValue → DatabaseValue → Command Token
unfolding move_into
smove_of from to m v w = do
  xs ← lift (get_set v)
  if has m xs
      then (do
        put from (record v { value = set (delete m xs) })
        ys ← lift (if from == to then returns (delete m xs) else get_set w)
        move_into from to m (delete m xs) ys)
      else pure (count 0)

unfoldable pub smove : Request → Command Token
unfolding smove_of
smove r = do
  found ← get r (get_param r 0)
  target ← get r (get_param r 1)
  smove_of (get_param r 0) (get_param r 1) (get_param r 2) (or_new_set found) (or_new_set target)
