-- ===== src/SortedSet/Chain.antt =====
-- src/resp/data/sorted-set.ts: the nodes that are linked on one level, and the search along them.
use unit_redis_ness.Prelude.{
  ℕ, zero, suc, ◌<◌, String, Bool, Option, none, some, List, [], ◌∷◌, ◌++◌, length, ℤ, ◌+ℤ◌, ◌≡◌,
  ◌∙◌, inl, inr, Bool-cases, arith, ltb, if◌then◌else◌, Option-cases,
}
use unit_redis_ness.Number.{Number}
use unit_redis_ness.DatabaseValue.{Node, Level}
use unit_redis_ness.SortedSet.Heap.{node_at, level_at, next_of, walk}

-- A linked node: its address, its entry and its number of levels.
pub record Item : Type 0 where
  pub at : ℕ
  pub key : String
  pub score : Number
  pub height : ℕ

-- Key and value of a node.
unfoldable pub label_of : Option Node → Option (Option String × Number)
label_of none = none
label_of (some n) = some (n.key, n.value)

unfoldable pub label : List Node → ℕ → Option (Option String × Number)
unfolding label_of
label h a = label_of (node_at h a)

abbrev pub entry : Item → Option (Option String × Number)
entry x = some (some x.key, x.score)

-- The items with more than i levels.
unfoldable pub tower : ℕ → List Item → List Item
tower i [] = []
tower i (x ∷ xs) = if ltb i x.height then x ∷ tower i xs else tower i xs

-- Along the pointers of level i the items follow the node u, and the last of them has no next.
pub data From (h : List Node) (i : ℕ) : ℕ → List Item → Type 0 where
  last : {u : ℕ} {l : Level} → level_at h u i ≡ some l → l.next ≡ none → From h i u []
  step :
      {u : ℕ} {l : Level} {x : Item} {xs : List Item}
      → level_at h u i ≡ some l
      → l.next ≡ some x.at
      → label h x.at ≡ entry x
      → From h i x.at xs
      → From h i u (x ∷ xs)

-- The last of the node u and the items.
unfoldable pub last_at : ℕ → List Item → ℕ
last_at u [] = u
last_at u (x ∷ xs) = last_at x.at xs

unfoldable pub take_while : (Item → Bool) → List Item → List Item
take_while t [] = []
take_while t (x ∷ xs) = if t x then x ∷ take_while t xs else []

unfoldable pub drop_while : (Item → Bool) → List Item → List Item
drop_while t [] = []
drop_while t (x ∷ xs) = if t x then drop_while t xs else x ∷ xs

pub node_of-label :
    (h : List Node) (a : ℕ) (k : Option String) (v : Number)
    → label h a ≡ some (k, v)
    → (n : Node) × (node_at h a ≡ some n) × (n.key ≡ k) × (n.value ≡ v)
unfolding label
node_of-label h a k v e = elim (Option-cases (node_at h a)) [
  | inl gone ↦ ground arith
  | inr (n, found) ↦ (n, found, ground arith, ground arith)
]

module _ {h : List Node} {i : ℕ} where
  pub From-level :
      {u : ℕ} {xs : List Item} → From h i u xs → (l : Level) × (level_at h u i ≡ some l)
  From-level (last {u} {l} e n) = (l, e)
  From-level (step {u} {l} e n b f) = (l, e)

  pub From-next :
      {u : ℕ} {x : Item} {xs : List Item} → From h i u (x ∷ xs) → next_of h u i ≡ some (some x.at)
  unfolding next_of
  From-next (step e n b f) = rw (e, n)

  pub From-label :
      {u : ℕ} {x : Item} {xs : List Item} → From h i u (x ∷ xs) → label h x.at ≡ entry x
  From-label (step e n b f) = b

  pub From-end : {u : ℕ} → From h i u [] → next_of h u i ≡ some none
  unfolding next_of
  From-end (last e n) = rw (e, n)

  pub From-tail : {u : ℕ} {x : Item} {xs : List Item} → From h i u (x ∷ xs) → From h i x.at xs
  From-tail (step e n b f) = f

  pub From-append :
      {u : ℕ} (ys : List Item) {zs : List Item} → From h i u (ys ++ zs) → From h i (last_at u ys) zs
  unfolding last_at
  From-append [] f = f
  From-append (y ∷ ys) (step e n b f) = From-append ys f

  -- What does not change the level's pointers and the labels keeps the chain.
  pub From-frame :
      {g : List Node} {u : ℕ} {xs : List Item}
      → ((a : ℕ) (l : Level)
          → level_at h a i ≡ some l
          → (m : Level) × (level_at g a i ≡ some m) × (m.next ≡ l.next))
      → ((a : ℕ) (k : Option String × Number) → label h a ≡ some k → label g a ≡ some k)
      → From h i u xs
      → From g i u xs
  From-frame same named (last {u} {l} e n) = let (m, e', n') = same u l e in last e' (n' ∙ n)
  From-frame same named (step {u} {l} {x} e n b f) =
      let (m, e', n') = same u l e in
      step e' (n' ∙ n) (named x.at (some x.key, x.score) b) (From-frame same named f)

-- The test of a walk, read from key and score alone.
abbrev pub Reads : (Node → ℤ → Bool) → (Item → Bool) → Type 0
Reads test t =
    (n : Node) (r : ℤ) (x : Item) → n.key ≡ some x.key → n.value ≡ x.score → test n r ≡ t x

module _ (test : Node → ℤ → Bool) (t : Item → Bool) (reads : Reads test t) (h : List Node) where
  -- The walk ends at the last of the items that pass the test one after another.
  pub walk_lem :
      {i u : ℕ} {xs : List Item}
      → From h i u xs
      → (fuel : ℕ) (r : ℤ) → length xs < fuel
      → (q : ℤ) × (walk test h fuel i u r ≡ some (last_at u (take_while t xs), q))
  unfolding walk last_at take_while
  walk_lem f zero r few = absurd (omega arith)
  walk_lem (last e n) (suc fuel) r few = (r, rw (e, n))
  walk_lem (step {u} {l} {x} {xs} e n b f) (suc fuel) r few =
      let (m, found, k, v) = node_of-label h x.at (some x.key) x.score b in
      elim (Bool-cases (t x)) [
        | inl passed ↦
            let (q, ends) = walk_lem f fuel (r +ℤ l.span) (omega arith) in
            (q, rw (e, n, found, reads m (r +ℤ l.span) x k v, passed) ends)
        | inr failed ↦ (r, rw (e, n, found, reads m (r +ℤ l.span) x k v, failed))
      ]
