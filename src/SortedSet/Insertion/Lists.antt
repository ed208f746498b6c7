-- ===== src/SortedSet/Insertion/Lists.antt =====
-- src/resp/data/sorted-set.ts, `_insert`: an item put between those in front and those behind.
use unit_redis_ness.Prelude.{
  ℕ, String, true, false, Option, none, some, List, [], ◌∷◌, ◌++◌, ◌≡◌, ◌≢◌, refl, sym, ◌∙◌, arith,
  eqb, if◌then◌else◌,
}
use unit_redis_ness.Number.{is_nan}
use unit_redis_ness.DatabaseValue.{Node}
use unit_redis_ness.SortedSet.Heap.{Order}
use unit_redis_ness.SortedSet.Chain.{Item, last_at}
use unit_redis_ness.SortedSet.Search.{All}
use unit_redis_ness.SortedSet.Writes.{prev_at}
use unit_redis_ness.SortedSet.Link.{NotIn, NotIn-append, Apart, last_at-ne}
use unit_redis_ness.SortedSet.Shape.{
  OrderLaws, Before, AllAfter, IsSorted, Before-total, precedes, Backs, last_of, AllLinked,
}

NotIn-insert :
    (a : ℕ) (x : Item) (front back : List Item)
    → x.at ≢ a
    → NotIn a (front ++ back)
    → NotIn a (front ++ (x ∷ back))
NotIn-insert a x [] back ne n = (ne, n)
NotIn-insert a x (y ∷ front) back ne n = (n.0, NotIn-insert a x front back ne n.1)

pub Apart-NotIn : (u : ℕ) (xs : List Item) → Apart u xs → NotIn u xs
Apart-NotIn u [] a = tt
Apart-NotIn u (x ∷ xs) a = a.0

Apart-other : (u v : ℕ) (xs : List Item) → NotIn v xs → Apart u xs → Apart v xs
Apart-other u v [] n a = tt
Apart-other u v (x ∷ xs) n a = (n, a.1)

pub Apart-insert :
    (u : ℕ) (x : Item) (front back : List Item)
    → u ≢ x.at
    → NotIn x.at (front ++ back)
    → Apart u (front ++ back)
    → Apart u (front ++ (x ∷ back))
Apart-insert u x [] back ne n a =
    (((λ e. ne (sym e)), Apart-NotIn u back a), Apart-other u x.at back n a)
Apart-insert u x (y ∷ front) back ne n a = (
  (a.0.0, NotIn-insert u x front back (λ e. ne (sym e)) a.0.1),
  Apart-insert y.at x front back n.0 n.1 a.1,
)

-- The address of an item in the middle is none of the others.
pub Apart-middle :
    (u : ℕ) (z : Item) (front zs : List Item)
    → Apart u (front ++ (z ∷ zs))
    → NotIn z.at front × NotIn z.at zs
Apart-middle u z [] zs a = (tt, Apart-NotIn z.at zs a.1)
Apart-middle u z (y ∷ front) zs a =
    let m = Apart-middle y.at z front zs a.1 in
    let n = NotIn-append y.at front (z ∷ zs) (Apart-NotIn y.at (front ++ (z ∷ zs)) a.1) in
    (((λ e. n.1.0 (sym e)), m.0), m.1)

pub NotIn-front : (u : ℕ) (front back : List Item) → Apart u (front ++ back) → NotIn u front
NotIn-front u front back a = (NotIn-append u front back (Apart-NotIn u (front ++ back) a)).0

-- No item has the key.
abbrev pub NoKey : String → List Item → Type 0
NoKey k [] = Unit {0}
NoKey k (x ∷ xs) = (x.key ≢ k) × NoKey k xs

module _ (o : Order) (laws : OrderLaws o) (x : Item) (number : is_nan x.score ≡ false) where
  AllAfter-back :
      (size level : ℕ) (back : List Item)
      → AllLinked size level back
      → NoKey x.key back
      → All (precedes o x.key x.score) false back
      → AllAfter o x back
  AllAfter-back size level [] a k f = tt
  AllAfter-back size level (y ∷ ys) a k f = (
    Before-total o laws y x (a.0.numeric) number k.0 f.0,
    AllAfter-back size level ys a.1 k.1 f.1,
  )

  AllAfter-insert :
      (y : Item) (front back : List Item)
      → Before o y x
      → AllAfter o y (front ++ back)
      → AllAfter o y (front ++ (x ∷ back))
  AllAfter-insert y [] back b a = (b, a)
  AllAfter-insert y (z ∷ front) back b a = (a.0, AllAfter-insert y front back b a.1)

  pub IsSorted-insert :
      (size level : ℕ) (front back : List Item)
      → AllLinked size level (front ++ back)
      → NoKey x.key (front ++ back)
      → All (precedes o x.key x.score) true front
      → All (precedes o x.key x.score) false back
      → IsSorted o (front ++ back)
      → IsSorted o (front ++ (x ∷ back))
  IsSorted-insert size level [] back a k p f s = (AllAfter-back size level back a k f, s)
  IsSorted-insert size level (y ∷ front) back a k p f s = (
    AllAfter-insert y front back p.0 s.0,
    IsSorted-insert size level front back a.1 k.1 p.1 f s.1,
  )

pub last_of-append :
    (p : Option ℕ) (xs ys : List Item) → last_of p (xs ++ ys) ≡ last_of (last_of p xs) ys
unfolding last_of
last_of-append p [] ys = refl
last_of-append p (x ∷ xs) ys = last_of-append (some x.at) xs ys

-- `node.prev = update[0] === _head ? null : update[0]`
last_of-some :
    (p : Option ℕ) (u : ℕ) (y : Item) (ys : List Item)
    → last_of p (y ∷ ys) ≡ some (last_at u (y ∷ ys))
unfolding last_of last_at
last_of-some p u y [] = refl
last_of-some p u y (z ∷ ys) = last_of-some p u z ys

pub prev_lem :
    (head : ℕ) (front : List Item)
    → NotIn head front
    → (if eqb (last_at head front) head then none else some (last_at head front))
      ≡ last_of none front
unfolding last_of last_at
prev_lem head [] n = ground arith
prev_lem head (y ∷ ys) n =
    let ne : last_at y.at ys ≢ head = last_at-ne head y ys n in
    let other : eqb (last_at y.at ys) head ≡ false = ground arith in
    rw other (sym (last_of-some none head y ys))

pub Backs-append :
    (h : List Node) (p : Option ℕ) (xs ys : List Item)
    → Backs h p (xs ++ ys)
    → Backs h p xs × Backs h (last_of p xs) ys
unfolding last_of
Backs-append h p [] ys b = (tt, b)
Backs-append h p (x ∷ xs) ys b = let c = Backs-append h (some x.at) xs ys b.1 in ((b.0, c.0), c.1)

pub Backs-join :
    (h : List Node) (p : Option ℕ) (xs ys : List Item)
    → Backs h p xs
    → Backs h (last_of p xs) ys
    → Backs h p (xs ++ ys)
unfolding last_of
Backs-join h p [] ys b c = c
Backs-join h p (x ∷ xs) ys b c = (b.0, Backs-join h (some x.at) xs ys b.1 c)

pub Backs-frame :
    (h g : List Node) (a : ℕ) (p : Option ℕ) (xs : List Item)
    → ((c : ℕ) → a ≢ c → prev_at g c ≡ prev_at h c)
    → NotIn a xs
    → Backs h p xs
    → Backs g p xs
Backs-frame h g a p [] same n b = tt
Backs-frame h g a p (x ∷ xs) same n b =
    (same x.at (λ e. n.0 (sym e)) ∙ b.0, Backs-frame h g a (some x.at) xs same n.1 b.1)

pub Backs-same :
    (h g : List Node) (p : Option ℕ) (xs : List Item)
    → ((c : ℕ) → prev_at g c ≡ prev_at h c)
    → Backs h p xs
    → Backs g p xs
Backs-same h g p [] same b = tt
Backs-same h g p (x ∷ xs) same b = (same x.at ∙ b.0, Backs-same h g (some x.at) xs same b.1)
