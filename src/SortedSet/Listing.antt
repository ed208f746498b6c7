-- ===== src/SortedSet/Listing.antt =====
-- src/resp/data/sorted-set.ts: `keys`, `values`, `toArray`, `_first` and `rangeByScore`, which go
-- along the lowest level.
use unit_redis_ness.Prelude.{
  ℕ, zero, suc, String, Bool, true, false, Option, none, some, List, [], ◌∷◌, map, pos,
  if◌then◌else◌, eqb,
}
use unit_redis_ness.Number.{Number}
use unit_redis_ness.DatabaseValue.{SortedSet, Node}
use unit_redis_ness.SortedSet.Heap.{
  Order, ◌>>=◌, node_at, next_of, descend, enough, lowest, below_min,
}

-- `for (; node && test; node = node.next[0].next)`: the nodes that the loop visits.
unfoldable pub visit : (Node → Bool) → ℕ → List Node → Option ℕ → Option (List Node)
visit test fuel h none = some []
visit test zero h (some a) = none
visit test (suc fuel) h (some a) = do
  n ← node_at h a
  elim (test n) [
    | false ↦ some []
    | true ↦ do next ← next_of h a 0; rest ← visit test fuel h next; some (n ∷ rest)
  ]

abbrev pub always : Node → Bool
always n = true

-- The loop from the first node on, if the set is not empty.
unfoldable pub all_nodes : SortedSet → Option (List Node)
all_nodes s =
    if eqb s.length 0
    then some []
    else (do first ← next_of s.nodes s.head 0; visit always (enough s) s.nodes first)

-- A node's key; only the head has none.
abbrev pub key_or_null : Option String → String
key_or_null none = "null"
key_or_null (some k) = k

unfoldable pub keys : SortedSet → Option (List String)
keys s = do ns ← all_nodes s; some (map (λ n. key_or_null n.key) ns)

unfoldable pub values : SortedSet → Option (List Number)
values s = do ns ← all_nodes s; some (map (λ n. n.value) ns)

-- `toArray({"withScores": true})`; without the scores it is `keys`.
unfoldable pub to_array : SortedSet → Option (List (String × Number))
to_array s = do ns ← all_nodes s; some (map (λ n. (key_or_null n.key, n.value)) ns)

module _ (o : Order) where
  search_first : SortedSet → Number → Option (Option ℕ)
  search_first s min = do
    found ← descend (below_min o min) s.nodes (enough s) s.level s.head (pos 0)
    last ← lowest found
    next_of s.nodes last.0 0

  first_of : SortedSet → Number → Option ℕ → Option (Option ℕ)
  unfolding search_first
  first_of s min none = some none
  first_of s min (some tail) = do
    n ← node_at s.nodes tail
    if o.less n.value min then some none else search_first s min

  -- `_first`: the first node with a score that is not below the least.
  unfoldable pub first : SortedSet → Number → Option (Option ℕ)
  unfolding first_of
  first s min = first_of s min s.tail
