-- ===== src/SortedSet/Insert.antt =====
-- src/resp/data/sorted-set.ts: `randomLevel` and `_insert`, of a set whose `_unique` is false.
use unit_redis_ness.Prelude.{
  ℕ, zero, suc, ◌-◌, String, Bool, true, false, Option, none, some, List, [], ◌∷◌, ◌++◌, length,
  set, replicate, ℤ, pos, ◌+ℤ◌, ◌-ℤ◌, eqb, ltb, if◌then◌else◌,
}
use unit_redis_ness.Number.{Number}
use unit_redis_ness.DatabaseValue.{SortedSet, Node, Level}
use unit_redis_ness.SortedSet.Heap.{
  Order, ◌>>=◌, node_at, level_at, set_level, set_prev, next_of, descend, enough, lowest,
  goes_before,
}

-- How often in turn `Math.random() < 1 / Math.E` holds, as the draws say, from the given level.
unfoldable pub draw : List Bool → ℕ → ℕ
draw [] level = level
draw (true ∷ draws) level = draw draws (suc level)
draw (false ∷ draws) level = level

-- `randomLevel`
unfoldable pub random_level : List Bool → ℕ
unfolding draw
random_level draws = let level = draw draws 1 in if ltb level 32 then level else 32

-- `update[i] = head; update[i].next[i].span = length`, for `count` levels from i.
unfoldable pub raise : ℕ → ℕ → ℕ → ℕ → List Node → Option (List Node)
raise head length zero i h = some h
raise head length (suc count) i h = do
  l ← level_at h head i
  h ← set_level h head i (record l { span = pos length })
  raise head length count (suc i) h

-- `node.next[i] = level`, the next level of a new node
unfoldable pub push_level : List Node → ℕ → Level → Option (List Node)
push_level h a l = do n ← node_at h a; some (set h a (record n { next = n.next ++ (l ∷ []) }))

-- One round of the loop that links the new node at its levels: `d` is `rank[0] - rank[i]`.
unfoldable pub link : ℕ → ℤ → ℕ → ℕ → List Node → Option (List Node)
link new d i u h = do
  l ← level_at h u i
  h ← push_level h new (record { next = l.next; span = l.span -ℤ d })
  set_level h u i (record { next = some new; span = d +ℤ pos 1 })

-- One round of the loop over the levels above the new node: `update[i].next[i].span++`.
unfoldable pub widen : ℕ → ℕ → List Node → Option (List Node)
widen i u h = do l ← level_at h u i; set_level h u i (record l { span = l.span +ℤ pos 1 })

-- The two loops, from level i on: the node has `level` levels.
unfoldable pub link_all : ℕ → ℤ → ℕ → ℕ → List (ℕ × ℤ) → List Node → Option (List Node)
link_all new rank level i [] h = some h
link_all new rank level i ((u, r) ∷ update) h = do
  h ← (if ltb i level then link new (rank -ℤ r) i u h else widen i u h)
  link_all new rank level (suc i) update h

-- `node.next[0].next.prev = node`, or `_tail = node`
unfoldable pub link_back : Option ℕ → ℕ → List Node → Option ℕ → Option (List Node × Option ℕ)
link_back none new h tail = some (h, some new)
link_back (some p) new h tail = do h ← set_prev h p (some new); some (h, tail)

-- The end of `_insert`: the pointer back, the length and the level.
unfoldable pub finish : ℕ → ℕ → List Node → SortedSet → Option SortedSet
finish new level h s = do
  next ← next_of h new 0
  ends ← link_back next new h s.tail
  some (record s {
    length = suc s.length;
    nodes = ends.0;
    tail = ends.1;
    level = if ltb s.level level then level else s.level;
  })

-- `_insert`: the node of the new entry is the next of the heap.
unfoldable pub insert : Order → List Bool → String → Number → SortedSet → Option SortedSet
insert o draws key value s = do
  found ← descend (goes_before o key value) s.nodes (enough s) s.level s.head (pos 0)
  let level = random_level draws
  h ← raise s.head s.length (level - s.level) s.level s.nodes
  let update = found ++ replicate (level - s.level) (s.head, pos 0)
  first ← lowest update
  let new = length h
  let node : Node = record {
    level = level;
    key = some key;
    value = value;
    next = [];
    prev = if eqb first.0 s.head then none else some first.0;
  }
  h ← link_all new first.1 level 0 update (h ++ (node ∷ []))
  finish new level h s
