-- ===== src/SortedSet/Heap.antt =====
-- src/resp/data/sorted-set.ts: the reads and writes of `node.next[i]`, and the search. A result
-- `none` is a TypeError, of a read through a pointer that leads nowhere.
use unit_redis_ness.Prelude.{
  ℕ, zero, suc, String, Bool, true, false, not, ◌&&◌, ◌||◌, Option, none, some, List, [], ◌∷◌, ◌++◌,
  get_elem?, set, ℤ, ◌+ℤ◌,
}
use unit_redis_ness.Number.{Number, same}
use unit_redis_ness.DatabaseValue.{SortedSet, Node, Level}

-- The orders of the JavaScript language: `a < b` on two numbers, and on two texts.
pub record Order : Type 0 where
  pub less : Number → Number → Bool
  pub key_less : String → String → Bool

infixl 5 ◌>>=◌
abbrev pub ◌>>=◌ {ℓ κ} : {A : Type ℓ} {B : Type κ} → Option A → (A → Option B) → Option B
none >>= f = none
some a >>= f = f a

-- `nodes[i]` of the heap
abbrev pub node_at : List Node → ℕ → Option Node
node_at = get_elem?

-- `node.next[i]`
unfoldable pub level_at : List Node → ℕ → ℕ → Option Level
level_at h a i = do n ← node_at h a; get_elem? n.next i

-- `node.next[i] = level`, at a level that the node has
unfoldable pub set_level : List Node → ℕ → ℕ → Level → Option (List Node)
set_level h a i l = do n ← node_at h a; some (set h a (record n { next = set n.next i l }))

-- `node.prev = p`
unfoldable pub set_prev : List Node → ℕ → Option ℕ → Option (List Node)
set_prev h a p = do n ← node_at h a; some (set h a (record n { prev = p }))

-- `node.next[i].next`, for the first node with the head's address
unfoldable pub next_of : List Node → ℕ → ℕ → Option (Option ℕ)
next_of h a i = do l ← level_at h a i; some l.next

module _ (test : Node → ℤ → Bool) (h : List Node) where
  -- `while ((next = node.next[i].next) && test) { rank += node.next[i].span; node = next; }`: the
  -- test reads the next node and the rank there.
  unfoldable pub walk : ℕ → ℕ → ℕ → ℤ → Option (ℕ × ℤ)
  walk zero i u r = none
  walk (suc fuel) i u r = do
    l ← level_at h u i
    elim l.next [
      | none ↦ some (u, r)
      | some p ↦ do
        n ← node_at h p
        elim (test n (r +ℤ l.span)) [ true ↦ walk fuel i p (r +ℤ l.span) | false ↦ some (u, r) ]
    ]

  -- The loop over the levels below k, from the highest: for each level the node and the rank where
  -- the walk ends, the lowest level first.
  unfoldable pub descend : ℕ → ℕ → ℕ → ℤ → Option (List (ℕ × ℤ))
  descend fuel zero u r = some []
  descend fuel (suc i) u r = do
    found ← walk fuel i u r
    rest ← descend fuel i found.0 found.1
    some (rest ++ (found ∷ []))

-- More steps than any walk along the nodes of the set takes.
abbrev pub enough : SortedSet → ℕ
enough s = suc s.length

-- Where the search ends on the lowest level.
abbrev pub lowest : List (ℕ × ℤ) → Option (ℕ × ℤ)
lowest [] = none
lowest (x ∷ xs) = some x

module _ (o : Order) where
  -- `a <= b`
  abbrev pub at_most : Number → Number → Bool
  at_most a b = o.less a b || same a b

  -- `node.key < key`; the head's key is `null`, and no search compares it.
  unfoldable pub key_below : Option String → String → Bool
  key_below none k = false
  key_below (some j) k = o.key_less j k

  -- `next.value < min`
  abbrev pub below_min : Number → Node → ℤ → Bool
  below_min min n _ = o.less n.value min

  -- The test of `_remove`: `next.value < value || next.value === value && next.key < key`.
  unfoldable pub comes_before : String → Number → Node → ℤ → Bool
  unfolding key_below
  comes_before k v n _ = o.less n.value v || (same n.value v && key_below n.key k)

  -- The test of `_insert`: `next.value <= value`, with the `break` at an equal value and a key that
  -- is not less.
  unfoldable pub goes_before : String → Number → Node → ℤ → Bool
  unfolding key_below
  goes_before k v n _ = at_most n.value v && not (same n.value v && not (key_below n.key k))
