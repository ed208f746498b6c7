-- ===== src/SortedSet/Change.antt =====
-- src/resp/data/sorted-set.ts: `add`, `addAll` and `incrBy`. What Math.random answers while a
-- node is made is an argument: the list of its draws.
use unit_redis_ness.Prelude.{
  String, Bool, true, false, not, ◌&&◌, Option, none, some, List, [], ◌∷◌, if◌then◌else◌, pos,
}
use unit_redis_ness.Number.{Number, same, is_nan, integer}
use unit_redis_ness.Dictionary
use unit_redis_ness.DatabaseValue.{SortedSet}
use unit_redis_ness.SortedSet.{score}
use unit_redis_ness.SortedSet.Heap.{Order, ◌>>=◌}
use unit_redis_ness.SortedSet.Insert.{insert}
use unit_redis_ness.SortedSet.Remove.{remove, rem}

module _ (o : Order) where
  -- `_insert`, and `_map[key] = value`
  unfoldable pub place : List Bool → String → Number → SortedSet → Option SortedSet
  place draws key value s = do
    s ← insert o draws key value s
    some (record s { scores = Dictionary.put s.scores key value })

  -- `add` with a score, by the score `current` that the key has: the reply is that score.
  unfoldable pub add_score :
      List Bool → String → Number → Option Number → SortedSet → Option (Option Number × SortedSet)
  unfolding place
  add_score draws key value none s = do s ← place draws key value s; some (none, s)
  add_score draws key value (some current) s = elim (same value current) [
    | true ↦ some (some current, s)
    | false ↦ do s ← remove o key current s; s ← place draws key value s; some (some current, s)
  ]

  -- `add`: with no score, it removes. `set` is the same.
  unfoldable pub add :
      List Bool → String → Option Number → SortedSet → Option (Option Number × SortedSet)
  unfolding add_score
  add draws key none s = rem o key s
  add draws key (some value) s = add_score draws key value (Dictionary.get s.scores key) s

  -- The loop of `addAll` over the keys of another set: a list of draws for each.
  unfoldable pub add_each :
      List (List Bool) → List String → SortedSet → SortedSet → Option SortedSet
  add_each ds [] other s = some s
  add_each [] (key ∷ keys) other s = do
    added ← add [] key (score other key) s
    add_each [] keys other added.1
  add_each (draws ∷ ds) (key ∷ keys) other s = do
    added ← add draws key (score other key) s
    add_each ds keys other added.1

-- JavaScript's conversion of a score to a Boolean: 0, NaN and `null` are falsy.
unfoldable pub truthy_score : Option Number → Bool
truthy_score none = false
truthy_score (some n) = not (is_nan n) && not (same n (integer (pos 0)))

unfoldable pub or_zero : Option Number → Number
or_zero none = integer (pos 0)
or_zero (some n) = n

-- `incrBy`, by the sum of two doubles; the reply is the new score.
unfoldable pub incr_by :
    Order
    → (Number → Number → Number)
    → List Bool
    → Number
    → String
    → SortedSet
    → Option (Number × SortedSet)
unfolding truthy_score or_zero
incr_by o sum draws increment key s =
    let value =
      if truthy_score (score s key) then sum (or_zero (score s key)) increment else increment in
    do added ← add o draws key (some value) s; some (value, added.1)
