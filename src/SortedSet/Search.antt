-- ===== src/SortedSet/Search.antt =====
-- src/resp/data/sorted-set.ts: the search over all levels.
use unit_redis_ness.Prelude.{
  ℕ, zero, suc, ◌+◌, ◌<◌, ◌≤◌, Bool, true, false, some, List, [], ◌∷◌, ◌++◌, length, ℤ, ◌≡◌, refl,
  ◌⊎◌, inl, inr, Bool-cases, arith, ltb, length-append,
}
use unit_redis_ness.DatabaseValue.{Node}
use unit_redis_ness.SortedSet.Heap.{walk, descend}
use unit_redis_ness.SortedSet.Chain.{
  Item, From, From-tail, tower, last_at, take_while, Reads, walk_lem,
}

-- Every item passes, or fails, the test.
abbrev pub All : (Item → Bool) → Bool → List Item → Type 0
All t b [] = Unit {0}
All t b (x ∷ xs) = (t x ≡ b) × All t b xs

pub tower-append : (i : ℕ) (xs ys : List Item) → tower i (xs ++ ys) ≡ tower i xs ++ tower i ys
unfolding tower
tower-append i [] ys = refl
tower-append i (x ∷ xs) ys = elim (Bool-cases (ltb i x.height)) [
  | inl e ↦ rw (e, tower-append i xs ys)
  | inr e ↦ rw (e, tower-append i xs ys)
]

pub All-tower :
    (t : Item → Bool) (b : Bool) (i : ℕ) (xs : List Item) → All t b xs → All t b (tower i xs)
unfolding tower
All-tower t b i [] a = tt
All-tower t b i (x ∷ xs) a = elim (Bool-cases (ltb i x.height)) [
  | inl e ↦ rw e (a.0, All-tower t b i xs a.1)
  | inr e ↦ rw e (All-tower t b i xs a.1)
]

pub length-tower : (i : ℕ) (xs : List Item) → length (tower i xs) ≤ length xs
unfolding tower
length-tower i [] = omega arith
length-tower i (x ∷ xs) = elim (Bool-cases (ltb i x.height)) [
  | inl e ↦ rw e (omega (arith, length-tower i xs))
  | inr e ↦ rw e (omega (arith, length-tower i xs))
]

-- The test takes exactly the items in front.
take_while-append :
    (t : Item → Bool) (b zs : List Item)
    → All t true b
    → All t false zs
    → take_while t (b ++ zs) ≡ b
unfolding take_while
take_while-append t [] [] p f = refl
take_while-append t [] (z ∷ zs) p f = rw f.0
take_while-append t (x ∷ b) zs p f = rw (p.0, take_while-append t b zs p.1 f)

-- From a node of the level above, the rest of the walk along the items in front.
record Resumes (h : List Node) (t : Item → Bool) (i u0 u : ℕ) (front zs : List Item) : Type 0 where
  items : List Item
  chain : From h i u (items ++ zs)
  ends : last_at u items ≡ last_at u0 (tower i front)
  passes : All t true items
  short : length items ≤ length front

pub tower-keep :
    (i : ℕ) (x : Item) (xs : List Item) → ltb i x.height ≡ true → tower i (x ∷ xs) ≡ x ∷ tower i xs
unfolding tower
tower-keep i x xs e = rw e

pub tower-skip :
    (i : ℕ) (x : Item) (xs : List Item) → ltb i x.height ≡ false → tower i (x ∷ xs) ≡ tower i xs
unfolding tower
tower-skip i x xs e = rw e

-- Where a list is not empty, the node before it does not count.
last_at-cases : (xs : List Item) → (xs ≡ []) ⊎ ((u v : ℕ) → last_at u xs ≡ last_at v xs)
unfolding last_at
last_at-cases [] = inl refl
last_at-cases (x ∷ xs) = inr (λ u v. refl)

module _ {h : List Node} {t : Item → Bool} {i : ℕ} {zs : List Item} where
  -- One item more in front, which has the level.
  resume_keep :
      (x : Item) {front : List Item} {u v : ℕ}
      → ltb i x.height ≡ true
      → Resumes h t i x.at v front zs
      → Resumes h t i u v (x ∷ front) zs
  unfolding last_at
  resume_keep x {front} e m = record {
    items = m.items;
    chain = m.chain;
    ends = rw (tower-keep i x front e) m.ends;
    passes = m.passes;
    short = omega (arith, m.short);
  }

  resume :
      (front : List Item) (u : ℕ)
      → All t true front
      → From h i u (tower i front ++ zs)
      → Resumes h t i u (last_at u (tower (suc i) front)) front zs
  unfolding tower last_at
  resume [] u p f = record { items = []; chain = f; ends = refl; passes = tt; short = omega arith }
  resume (x ∷ front) u p f = elim (Bool-cases (ltb i x.height)) [
    | inr low ↦
        let m = resume front u p.1 (rw (tower-skip i x front low) at f) in
        rw (tower-skip (suc i) x front (ground arith)) (record {
          items = m.items;
          chain = m.chain;
          ends = rw (tower-skip i x front low) m.ends;
          passes = m.passes;
          short = omega (arith, m.short);
        })
    | inl here ↦
        let g : From h i u (x ∷ (tower i front ++ zs)) = rw (tower-keep i x front here) at f in
        let m = resume front x.at p.1 (From-tail g) in
        elim (Bool-cases (ltb (suc i) x.height)) [
          | inl tall ↦ rw (tower-keep (suc i) x front tall) (resume_keep x here m)
          | inr ends ↦
              rw (tower-skip (suc i) x front ends) (elim (last_at-cases (tower (suc i) front)) [
                | inr any ↦ rw (any u x.at) (resume_keep x here m)
                | inl none_above ↦ rw none_above (record {
                  items = x ∷ tower i front;
                  chain = g;
                  ends = rw (tower-keep i x front here);
                  passes = (p.0, All-tower t true i front p.1);
                  short = omega (arith, length-tower i front);
                })
              ])
        ]
  ]

-- `update` from level i on: for each level the last node in front, from the head u0.
pub data Updates (u0 : ℕ) (front : List Item) : ℕ → List (ℕ × ℤ) → Type 0 where
  nil : {i : ℕ} → Updates u0 front i []
  cons :
      {i u : ℕ} (r : ℤ) {rest : List (ℕ × ℤ)}
      → u ≡ last_at u0 (tower i front)
      → Updates u0 front (suc i) rest
      → Updates u0 front i ((u, r) ∷ rest)

pub Updates-append :
    {u0 : ℕ} {front : List Item} {i : ℕ} {xs : List (ℕ × ℤ)} (ys : List (ℕ × ℤ))
    → Updates u0 front i xs
    → Updates u0 front (length xs + i) ys
    → Updates u0 front i (xs ++ ys)
Updates-append {u0} {front} {i} ys nil more = let e : 0 + i ≡ i = omega arith in rw e at more
Updates-append {u0} {front} {i} ys (cons r {rest} e us) more =
    let same : suc (length rest) + i ≡ length rest + suc i = omega arith in
    cons r e (Updates-append ys us (rw same at more))

module _ (test : Node → ℤ → Bool) (t : Item → Bool) (reads : Reads test t) (h : List Node)
    (head : ℕ) (fuel : ℕ) (front back : List Item) (passes : All t true front)
    (fails : All t false back) (few : length (front ++ back) < fuel) where
  -- One level: the walk from where the level above ended.
  walk-last :
      (i u : ℕ) (r : ℤ)
      → Resumes h t i head u front (tower i back)
      → (q : ℤ) × (walk test h fuel i u r ≡ some (last_at head (tower i front), q))
  walk-last i u r m =
      let (q, e) = walk_lem test t reads h m.chain fuel r (
        omega (
          arith,
          length-append m.items (tower i back),
          length-append front back,
          m.short,
          length-tower i back,
        )) in
      let taken =
        take_while-append t m.items (tower i back) m.passes (All-tower t false i back fails) in
      (q, rw (taken, m.ends) at e)

  -- The whole search: what it finds on each level is the last node in front.
  pub descend_lem :
      (k u : ℕ) (r : ℤ)
      → ((i : ℕ) → i < k → From h i head (tower i (front ++ back)))
      → u ≡ last_at head (tower k front)
      → (found : List (ℕ × ℤ)) × (descend test h fuel k u r ≡ some found)
        × Updates head front 0 found
        × (length found ≡ k)
  unfolding descend
  descend_lem zero u r chains start = ([], refl, nil, refl)
  descend_lem (suc i) u r chains start =
      let chain = rw (tower-append i front back) at (chains i (omega arith)) in
      let m = resume front head passes chain in
      let (q, e) = walk-last i u r (rw start m) in
      let (rest, e', us, n) =
        descend_lem i (last_at head (tower i front)) q (λ j lt. chains j (omega arith)) refl in
      let at_i : length rest + 0 ≡ i = omega (arith, n) in
      (
        rest ++ ((last_at head (tower i front), q) ∷ []),
        rw (e, e'),
        Updates-append _ us (cons q (rw at_i) nil),
        omega (arith, n, length-append rest ((last_at head (tower i front), q) ∷ [])),
      )
