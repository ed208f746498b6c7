-- ===== src/SortedSet/Removal/Lists.antt =====
-- src/resp/data/sorted-set.ts, `_remove`: an item taken out between those in front and those behind.
use unit_redis_ness.Prelude.{
  ℕ, zero, suc, ◌<◌, ◌≤◌, true, false, some, List, [], ◌∷◌, ◌++◌, ◌≡◌, refl, inl, inr, Bool-cases,
  List-cases, arith, ltb,
}
use unit_redis_ness.DatabaseValue.{Node}
use unit_redis_ness.SortedSet.Heap.{Order}
use unit_redis_ness.SortedSet.Remove.{lower}
use unit_redis_ness.SortedSet.Chain.{Item, From, From-next, From-end, tower}
use unit_redis_ness.SortedSet.Search.{All}
use unit_redis_ness.SortedSet.Link.{NotIn, Apart}
use unit_redis_ness.SortedSet.Shape.{
  OrderLaws, Before, AllAfter, IsSorted, Before-trans, Before-irrefl, precedes, AllLinked,
}

NotIn-delete :
    (a : ℕ) (x : Item) (front back : List Item)
    → NotIn a (front ++ (x ∷ back))
    → NotIn a (front ++ back)
NotIn-delete a x [] back n = n.1
NotIn-delete a x (y ∷ front) back n = (n.0, NotIn-delete a x front back n.1)

pub Apart-delete :
    (u : ℕ) (x : Item) (front back : List Item)
    → Apart u (front ++ (x ∷ back))
    → Apart u (front ++ back)
Apart-delete u x [] [] a = tt
Apart-delete u x [] (y ∷ back) a = (a.0.1, a.1.1)
Apart-delete u x (y ∷ front) back a =
    ((a.0.0, NotIn-delete u x front back a.0.1), Apart-delete y.at x front back a.1)

pub AllLinked-delete :
    (size level : ℕ) (x : Item) (front back : List Item)
    → AllLinked size level (front ++ (x ∷ back))
    → AllLinked size level (front ++ back)
AllLinked-delete size level x [] back a = a.1
AllLinked-delete size level x (y ∷ front) back a =
    (a.0, AllLinked-delete size level x front back a.1)

pub AllLinked-resize :
    (size size' level : ℕ) (xs : List Item)
    → size ≤ size'
    → AllLinked size level xs
    → AllLinked size' level xs
AllLinked-resize size size' level [] le a = tt
AllLinked-resize size size' level (x ∷ xs) le a = (
  record { low = a.0.low; high = a.0.high; made = omega (arith, a.0.made); numeric = a.0.numeric },
  AllLinked-resize size size' level xs le a.1,
)

module _ (o : Order) (laws : OrderLaws o) (x : Item) where
  AllAfter-delete :
      (y : Item) (front back : List Item)
      → AllAfter o y (front ++ (x ∷ back))
      → Before o y x × AllAfter o y (front ++ back)
  AllAfter-delete y [] back a = a
  AllAfter-delete y (z ∷ front) back a =
      let b = AllAfter-delete y front back a.1 in (b.0, (a.0, b.1))

  -- In a sorted list those in front of x come before it, and the others do not.
  back-fails : (back : List Item) → AllAfter o x back → All (precedes o x.key x.score) false back
  back-fails [] a = tt
  back-fails (y ∷ back) a = (
    elim (Bool-cases (precedes o x.key x.score y)) [
      | inr no_loop ↦ no_loop
      | inl loop ↦
          let l = Before-trans o laws x y x a.0 loop in
          let l' = Before-irrefl o laws x in absurd (ground arith)
    ],
    back-fails back a.1,
  )

  pub IsSorted-delete :
      (front back : List Item)
      → IsSorted o (front ++ (x ∷ back))
      → IsSorted o (front ++ back)
        × All (precedes o x.key x.score) true front
        × All (precedes o x.key x.score) false (x ∷ back)
  IsSorted-delete [] back s = (s.1, tt, (Before-irrefl o laws x, back-fails back s.0))
  IsSorted-delete (y ∷ front) back s =
      let (sorted, passes, fails) = IsSorted-delete front back s.1 in
      let (b, after) = AllAfter-delete y front back s.0 in ((after, sorted), (b, passes), fails)

-- Without a node on its level, each item is lower.
tower-AllLinked :
    (size level : ℕ) (xs : List Item)
    → AllLinked size (suc level) xs
    → tower level xs ≡ []
    → AllLinked size level xs
unfolding tower
tower-AllLinked size level [] a e = tt
tower-AllLinked size level (x ∷ xs) a e = elim (Bool-cases (ltb level x.height)) [
  | inl high ↦ absurd (let f : x ∷ tower level xs ≡ [] = rw high at e in cc)
  | inr low ↦ (
    record { low = a.0.low; high = ground arith; made = a.0.made; numeric = a.0.numeric },
    tower-AllLinked size level xs a.1 (rw low at e),
  )
]

-- The level of the set sinks to that of the highest node.
pub lower_lem :
    (size head level : ℕ) (h : List Node) (xs : List Item)
    → 0 < level
    → level ≤ 32
    → ((i : ℕ) → i < 32 → From h i head (tower i xs))
    → AllLinked size level xs
    → (n : ℕ) × (lower h head level ≡ some n) × (0 < n) × (n ≤ 32) × AllLinked size n xs
unfolding lower
lower_lem size head zero h xs some_level few chains a = absurd (omega arith)
lower_lem size head (suc zero) h xs some_level few chains a = (1, refl, omega arith, omega arith, a)
lower_lem size head (suc (suc n)) h xs some_level few chains a =
    elim (List-cases (tower (suc n) xs)) [
      | inl empty ↦
          let chain = rw empty at (chains (suc n) (omega arith)) in
          let (m, e, low, few', linked) =
            lower_lem size head (suc n) h xs (omega arith) (omega arith) chains
              (tower-AllLinked size (suc n) xs a empty) in
          (m, rw (From-end chain) e, low, few', linked)
      | inr (y, ys, full) ↦
          let chain = rw full at (chains (suc n) (omega arith)) in
          (suc (suc n), rw (From-next chain), omega arith, omega arith, a)
    ]
