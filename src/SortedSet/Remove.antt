-- ===== src/SortedSet/Remove.antt =====
-- src/resp/data/sorted-set.ts: `_removeNode`, `_remove` and `rem`.
use unit_redis_ness.Prelude.{
  ℕ, zero, suc, ◌-◌, String, Bool, true, false, ◌&&◌, Option, none, some, List, [], ◌∷◌, ℤ, pos,
  ◌+ℤ◌, ◌-ℤ◌, eqb, ◌==◌,
}
use unit_redis_ness.Number.{Number, same}
use unit_redis_ness.Dictionary
use unit_redis_ness.DatabaseValue.{SortedSet, Node}
use unit_redis_ness.SortedSet.Heap.{
  Order, ◌>>=◌, node_at, level_at, set_level, set_prev, next_of, descend, enough, lowest,
  comes_before,
}

-- `a === b` on a pointer and a node
unfoldable pub points_at : Option ℕ → ℕ → Bool
points_at none a = false
points_at (some p) a = eqb p a

-- One round of the loop of `_removeNode` over the levels: `u` is `update[i]`.
unfoldable pub unlink : ℕ → ℕ → ℕ → List Node → Option (List Node)
unfolding points_at
unlink node i u h = do
  l ← level_at h u i
  elim (points_at l.next node) [
    | true ↦ do
      m ← level_at h node i
      set_level h u i (record { next = m.next; span = l.span +ℤ (m.span -ℤ pos 1) })
    | false ↦ set_level h u i (record l { span = l.span -ℤ pos 1 })
  ]

unfoldable pub unlink_all : ℕ → ℕ → List (ℕ × ℤ) → List Node → Option (List Node)
unlink_all node i [] h = some h
unlink_all node i ((u, r) ∷ update) h = do h ← unlink node i u h; unlink_all node (suc i) update h

-- `next.prev = node.prev`, or `_tail = node.prev`
unfoldable pub unlink_back :
    Option ℕ → Option ℕ → List Node → Option ℕ → Option (List Node × Option ℕ)
unlink_back none prev h tail = some (h, prev)
unlink_back (some p) prev h tail = do h ← set_prev h p prev; some (h, tail)

-- `while (_level > 1 && !_head.next[_level - 1].next) { _level -= 1; }`
unfoldable pub lower : List Node → ℕ → ℕ → Option ℕ
lower h head zero = some zero
lower h head (suc zero) = some 1
lower h head (suc (suc n)) = do
  next ← next_of h head (suc n)
  elim next [ none ↦ lower h head (suc n) | some p ↦ some (suc (suc n)) ]

-- `_removeNode`
unfoldable pub remove_node : ℕ → List (ℕ × ℤ) → SortedSet → Option SortedSet
remove_node node update s = do
  h ← unlink_all node 0 update s.nodes
  n ← node_at h node
  next ← next_of h node 0
  ends ← unlink_back next n.prev h s.tail
  level ← lower ends.0 s.head s.level
  some (record s { nodes = ends.0; tail = ends.1; level = level })

unfoldable pub key_is : Option String → String → Bool
key_is none k = false
key_is (some j) k = j == k

-- `!node || value !== node.value || node.key !== key`, negated
unfoldable pub is_entry : String → Number → Node → Bool
unfolding key_is
is_entry key value n = same value n.value && key_is n.key key

-- The end of `_remove`: the node that follows the search, if it is the entry's.
unfoldable pub remove_found :
    String → Number → List (ℕ × ℤ) → Option ℕ → SortedSet → Option SortedSet
unfolding is_entry
remove_found key value update none s = some s
remove_found key value update (some node) s = do
  n ← node_at s.nodes node
  elim (is_entry key value n) [
    | false ↦ some s
    | true ↦ do s ← remove_node node update s; some (record s { length = s.length - 1 })
  ]

-- `_remove`
unfoldable pub remove : Order → String → Number → SortedSet → Option SortedSet
unfolding remove_found
remove o key value s = do
  update ← descend (comes_before o key value) s.nodes (enough s) s.level s.head (pos 0)
  last ← lowest update
  next ← next_of s.nodes last.0 0
  remove_found key value update next s

unfoldable pub rem_found :
    Order → String → Option Number → SortedSet → Option (Option Number × SortedSet)
rem_found o key none s = some (none, s)
rem_found o key (some value) s = do
  s ← remove o key value s
  some (some value, record s { scores = record { items = Dictionary.without key s.scores.items } })

-- `rem`: the score that the key had, if any. `del` is the same.
unfoldable pub rem : Order → String → SortedSet → Option (Option Number × SortedSet)
unfolding rem_found
rem o key s = rem_found o key (Dictionary.get s.scores key) s
