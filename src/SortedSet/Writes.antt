-- ===== src/SortedSet/Writes.antt =====
-- src/resp/data/sorted-set.ts: what a write of `node.next[i]` or `node.prev` changes.
use unit_redis_ness.Prelude.{
  ℕ, zero, suc, String, Option, none, some, List, [], ◌∷◌, ◌++◌, length, get_elem?, set, ◌≡◌, ◌≢◌,
  refl, inl, inr, arith, Option-cases, ap, sym, ◌∙◌, length-append,
}
use native.Mathlib.Decide.{ℕ_discrete}
use unit_redis_ness.Number.{Number}
use unit_redis_ness.DatabaseValue.{Node, Level}
use unit_redis_ness.SortedSet.Heap.{node_at, level_at, set_level, set_prev}
use unit_redis_ness.SortedSet.Insert.{push_level}
use unit_redis_ness.SortedSet.Chain.{label, label_of}

module _ {ℓ} {A : Type ℓ} where
  get_elem?-set_self :
      (xs : List A) (i : ℕ) (v w : A) → get_elem? xs i ≡ some w → get_elem? (set xs i v) i ≡ some v
  get_elem?-set_self [] i v w e = cc
  get_elem?-set_self (x ∷ xs) zero v w e = refl
  get_elem?-set_self (x ∷ xs) (suc i) v w e = get_elem?-set_self xs i v w e

  get_elem?-set_ne :
      (xs : List A) (i j : ℕ) (v : A) → i ≢ j → get_elem? (set xs i v) j ≡ get_elem? xs j
  get_elem?-set_ne [] i j v ne = refl
  get_elem?-set_ne (x ∷ xs) zero zero v ne = absurd (ne refl)
  get_elem?-set_ne (x ∷ xs) zero (suc j) v ne = refl
  get_elem?-set_ne (x ∷ xs) (suc i) zero v ne = refl
  get_elem?-set_ne (x ∷ xs) (suc i) (suc j) v ne = get_elem?-set_ne xs i j v (λ e. ne (ap suc e))

  length-set : (xs : List A) (i : ℕ) (v : A) → length (set xs i v) ≡ length xs
  length-set [] i v = refl
  length-set (x ∷ xs) zero v = refl
  length-set (x ∷ xs) (suc i) v = ap suc (length-set xs i v)

  get_elem?-append_end : (xs : List A) (v : A) → get_elem? (xs ++ v ∷ []) (length xs) ≡ some v
  get_elem?-append_end [] v = refl
  get_elem?-append_end (x ∷ xs) v = get_elem?-append_end xs v

  get_elem?-append_ne :
      (xs : List A) (v : A) (j : ℕ) → length xs ≢ j → get_elem? (xs ++ v ∷ []) j ≡ get_elem? xs j
  get_elem?-append_ne [] v zero ne = absurd (ne refl)
  get_elem?-append_ne [] v (suc j) ne = refl
  get_elem?-append_ne (x ∷ xs) v zero ne = refl
  get_elem?-append_ne (x ∷ xs) v (suc j) ne = get_elem?-append_ne xs v j (λ e. ne (ap suc e))

-- `node.prev`, and the number of levels that a node has so far
prev_of : Option Node → Option ℕ
prev_of none = none
prev_of (some n) = n.prev

unfoldable pub prev_at : List Node → ℕ → Option ℕ
unfolding prev_of
prev_at h a = prev_of (node_at h a)

depth_of : Option Node → Option ℕ
depth_of none = none
depth_of (some n) = some (length n.next)

unfoldable pub depth_at : List Node → ℕ → Option ℕ
unfolding depth_of
depth_at h a = depth_of (node_at h a)

levels_of : Option Node → List Level
levels_of none = []
levels_of (some n) = n.next

-- One level of one node is written, nothing else.
pub record Writes (h g : List Node) (a i : ℕ) (l : Level) : Type 0 where
  pub self : level_at g a i ≡ some l
  pub nodes : (b j : ℕ) → a ≢ b → level_at g b j ≡ level_at h b j
  pub levels : (b j : ℕ) → i ≢ j → level_at g b j ≡ level_at h b j
  pub labels : (b : ℕ) → label g b ≡ label h b
  pub prevs : (b : ℕ) → prev_at g b ≡ prev_at h b
  pub depths : (b : ℕ) → a ≢ b → depth_at g b ≡ depth_at h b
  pub size : length g ≡ length h

module _ (h : List Node) (a : ℕ) where
  -- A node is replaced by one with the same entry and the same `prev`.
  replace_levels :
      (n : Node) (ls : List Level) (i : ℕ) (l : Level)
      → node_at h a ≡ some n
      → get_elem? ls i ≡ some l
      → ((j : ℕ) → i ≢ j → get_elem? ls j ≡ get_elem? n.next j)
      → Writes h (set h a (record n { next = ls })) a i l
  unfolding level_at label label_of prev_at prev_of depth_at depth_of
  replace_levels n ls i l here it same =
      let n' : Node = record n { next = ls } in
      let found = get_elem?-set_self h a n' n here in
      record {
        self = rw found it;
        nodes = λ b j ne. rw (get_elem?-set_ne h a b n' ne);
        levels = λ b j ne. elim (ℕ_discrete a b) [
          | yes e ↦ rw (← e) (rw (found, here) (same j ne))
          | no other ↦ rw (get_elem?-set_ne h a b n' other)
        ];
        labels = λ b. elim (ℕ_discrete a b) [
          | yes e ↦ rw (← e) (rw (found, here))
          | no other ↦ rw (get_elem?-set_ne h a b n' other)
        ];
        prevs = λ b. elim (ℕ_discrete a b) [
          | yes e ↦ rw (← e) (rw (found, here))
          | no other ↦ rw (get_elem?-set_ne h a b n' other)
        ];
        depths = λ b ne. rw (get_elem?-set_ne h a b n' ne);
        size = length-set h a n';
      }

-- The write of `node.next[i]` at a level that the node has.
pub set_level-Writes :
    (h : List Node) (a i : ℕ) (l m : Level)
    → level_at h a i ≡ some m
    → (g : List Node) × (set_level h a i l ≡ some g)
      × Writes h g a i l
      × (depth_at g a ≡ depth_at h a)
unfolding level_at set_level depth_at depth_of
set_level-Writes h a i l m e = elim (Option-cases (node_at h a)) [
  | inl gone ↦ absurd (ground arith)
  | inr (n, here) ↦
      let it : get_elem? n.next i ≡ some m = ground arith in
      let ls = set n.next i l in
      (
        set h a (record n { next = ls }),
        rw here,
        replace_levels h a n ls i l here (get_elem?-set_self n.next i l m it)
            (λ j ne. get_elem?-set_ne n.next i j l ne),
        rw (get_elem?-set_self h a (record n { next = ls }) n here, here, length-set n.next i l),
      )
]

-- A node gets its next level.
pub push_level-Writes :
    (h : List Node) (a i : ℕ) (l : Level)
    → depth_at h a ≡ some i
    → (g : List Node) × (push_level h a l ≡ some g)
      × Writes h g a i l
      × (depth_at g a ≡ some (suc i))
unfolding push_level depth_at depth_of
push_level-Writes h a i l e = elim (Option-cases (node_at h a)) [
  | inl gone ↦ absurd (ground arith)
  | inr (n, here) ↦
      let deep : length n.next ≡ i = ground arith in
      let ls = n.next ++ (l ∷ []) in
      (
        set h a (record n { next = ls }),
        rw here,
        replace_levels h a n ls i l here (rw (← deep) (get_elem?-append_end n.next l))
            (λ j ne. get_elem?-append_ne n.next l j (λ e. ne (sym deep ∙ e))),
        rw (get_elem?-set_self h a (record n { next = ls }) n here)
            (ground (arith, length-append n.next (l ∷ []))),
      )
]

-- The write of `node.prev`.
pub record WritesPrev (h g : List Node) (a : ℕ) (p : Option ℕ) : Type 0 where
  pub self : prev_at g a ≡ p
  pub prevs : (b : ℕ) → a ≢ b → prev_at g b ≡ prev_at h b
  pub levels : (b j : ℕ) → level_at g b j ≡ level_at h b j
  pub labels : (b : ℕ) → label g b ≡ label h b
  pub size : length g ≡ length h

pub set_prev-Writes :
    (h : List Node) (a : ℕ) (p : Option ℕ) (k : Option String × Number)
    → label h a ≡ some k
    → (g : List Node) × (set_prev h a p ≡ some g) × WritesPrev h g a p
unfolding set_prev level_at label label_of prev_at prev_of
set_prev-Writes h a p k e = elim (Option-cases (node_at h a)) [
  | inl gone ↦ absurd (ground arith)
  | inr (n, here) ↦
      let n' : Node = record n { prev = p } in
      let found = get_elem?-set_self h a n' n here in
      (
        set h a n',
        rw here,
        record {
          self = rw found;
          prevs = λ b ne. rw (get_elem?-set_ne h a b n' ne);
          levels = λ b j. elim (ℕ_discrete a b) [
            | yes same ↦ rw (← same) (rw (found, here))
            | no other ↦ rw (get_elem?-set_ne h a b n' other)
          ];
          labels = λ b. elim (ℕ_discrete a b) [
            | yes same ↦ rw (← same) (rw (found, here))
            | no other ↦ rw (get_elem?-set_ne h a b n' other)
          ];
          size = length-set h a n';
        },
      )
]

-- A new node at the end of the heap.
pub record Allocates (h : List Node) (n : Node) : Type 0 where
  pub label_new : label (h ++ (n ∷ [])) (length h) ≡ some (n.key, n.value)
  pub prev_new : prev_at (h ++ (n ∷ [])) (length h) ≡ n.prev
  pub depth_new : depth_at (h ++ (n ∷ [])) (length h) ≡ some (length n.next)
  pub levels : (b j : ℕ) → length h ≢ b → level_at (h ++ (n ∷ [])) b j ≡ level_at h b j
  pub labels : (b : ℕ) → length h ≢ b → label (h ++ (n ∷ [])) b ≡ label h b
  pub prevs : (b : ℕ) → length h ≢ b → prev_at (h ++ (n ∷ [])) b ≡ prev_at h b

pub append-Allocates : (h : List Node) (n : Node) → Allocates h n
unfolding level_at label label_of prev_at prev_of depth_at depth_of
append-Allocates h n = record {
  label_new = rw (get_elem?-append_end h n);
  prev_new = rw (get_elem?-append_end h n);
  depth_new = rw (get_elem?-append_end h n);
  levels = λ b j ne. rw (get_elem?-append_ne h n b ne);
  labels = λ b ne. rw (get_elem?-append_ne h n b ne);
  prevs = λ b ne. rw (get_elem?-append_ne h n b ne);
}

get_elem?-append_some {ℓ} :
    {A : Type ℓ} (xs ys : List A) (j : ℕ) (w : A)
    → get_elem? xs j ≡ some w
    → get_elem? (xs ++ ys) j ≡ some w
get_elem?-append_some [] ys j w e = cc
get_elem?-append_some (x ∷ xs) ys zero w e = e
get_elem?-append_some (x ∷ xs) ys (suc j) w e = get_elem?-append_some xs ys j w e

-- What a node has, it has still.
pub level_at-append :
    (h : List Node) (n : Node) (a i : ℕ) (l : Level)
    → level_at h a i ≡ some l
    → level_at (h ++ (n ∷ [])) a i ≡ some l
unfolding level_at
level_at-append h n a i l e = elim (Option-cases (node_at h a)) [
  | inl gone ↦ absurd (ground arith)
  | inr (m, here) ↦ rw (get_elem?-append_some h (n ∷ []) a m here) (rw here at e)
]

pub label-append :
    (h : List Node) (n : Node) (a : ℕ) (k : Option String × Number)
    → label h a ≡ some k
    → label (h ++ (n ∷ [])) a ≡ some k
unfolding label label_of
label-append h n a k e = elim (Option-cases (node_at h a)) [
  | inl gone ↦ absurd (ground arith)
  | inr (m, here) ↦ rw (get_elem?-append_some h (n ∷ []) a m here) (rw here at e)
]

pub prev_at-eq : (h : List Node) (a : ℕ) (n : Node) → node_at h a ≡ some n → prev_at h a ≡ n.prev
unfolding prev_at prev_of
prev_at-eq h a n e = rw e
