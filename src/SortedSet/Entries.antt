-- ===== src/SortedSet/Entries.antt =====
-- The sorted set as a list of entries in the order of score and key: the contract of
-- src/resp/data/sorted-set.ts.
use unit_redis_ness.Prelude.{
  String, Bool, true, false, ◌&&◌, ◌||◌, none, some, List, [], ◌∷◌, ◌++◌, ◌≡◌, ◌≢◌, refl, ap, inl,
  inr, Bool-cases, arith, ◌==◌, eq_iff, if◌then◌else◌,
}
use unit_redis_ness.Number.{Number, same}
use unit_redis_ness.Dictionary.{lookup, without}
use unit_redis_ness.Dictionary.Laws.{IsDistinct, without_absent}
use unit_redis_ness.SortedSet.Heap.{Order}
use unit_redis_ness.SortedSet.Chain.{Item}
use unit_redis_ness.SortedSet.Search.{All}
use unit_redis_ness.SortedSet.Shape.{OrderLaws, AllAfter, IsSorted, precedes, Before-trans}
use unit_redis_ness.SortedSet.Insertion.Lists.{NoKey}

abbrev pub Entry : Type 0
Entry = String × Number

-- A lower score first; among equal scores, the lower key.
unfoldable pub entry_before : Order → Entry → Entry → Bool
entry_before o (j, w) (k, v) = o.less w v || (same w v && o.key_less j k)

-- The entry behind those that come before it.
unfoldable pub insert_entry : Order → Entry → List Entry → List Entry
insert_entry o e [] = e ∷ []
insert_entry o e (f ∷ es) =
    let rest = insert_entry o e es in if entry_before o f e then f ∷ rest else e ∷ (f ∷ es)

-- A key gets a score: its old entry goes.
unfoldable pub put_entry : Order → String → Number → List Entry → List Entry
put_entry o k v es = insert_entry o (k, v) (without k es)

abbrev pub entries : List Item → List Entry
entries [] = []
entries (x ∷ xs) = (x.key, x.score) ∷ entries xs

pub NoKey-of_lookup : (k : String) (xs : List Item) → lookup k (entries xs) ≡ none → NoKey k xs
unfolding lookup
NoKey-of_lookup k [] e = tt
NoKey-of_lookup k (x ∷ xs) e = elim (Bool-cases (x.key == k)) [
  | inl hit ↦ absurd (ground arith)
  | inr miss ↦ ((λ p. absurd (ground (arith, eq_iff x.key k))), NoKey-of_lookup k xs (rw miss at e))
]

-- An entry in the middle of the items.
pub lookup-middle :
    (x : Item) (front back : List Item) (j : String)
    → lookup x.key (entries (front ++ back)) ≡ none
    → lookup j (entries (front ++ (x ∷ back)))
      ≡ (if x.key == j then some x.score else lookup j (entries (front ++ back)))
unfolding lookup
lookup-middle x [] back j e = refl
lookup-middle x (y ∷ front) back j e = elim (Bool-cases (y.key == x.key)) [
  | inl hit ↦ absurd (ground arith)
  | inr miss ↦
      ground
        (arith, lookup-middle x front back j, eq_iff y.key x.key, eq_iff y.key j, eq_iff x.key j)
]

pub IsDistinct-middle :
    (x : Item) (front back : List Item)
    → lookup x.key (entries (front ++ back)) ≡ none
    → IsDistinct (entries (front ++ back))
    → IsDistinct (entries (front ++ (x ∷ back)))
unfolding lookup
IsDistinct-middle x [] back e d = (e, d)
IsDistinct-middle x (y ∷ front) back e d = elim (Bool-cases (y.key == x.key)) [
  | inl hit ↦ absurd (ground arith)
  | inr miss ↦
      let rest : lookup x.key (entries (front ++ back)) ≡ none = rw miss at e in
      (
        ground
            (arith, lookup-middle x front back y.key rest, eq_iff y.key x.key, eq_iff x.key y.key),
        IsDistinct-middle x front back rest d.1,
      )
]

lookup-ne-none :
    (x : Item) (front back : List Item) → lookup x.key (entries (front ++ (x ∷ back))) ≢ none
unfolding lookup
lookup-ne-none x [] back e = ground (arith, eq_iff x.key x.key)
lookup-ne-none x (y ∷ front) back e = elim (Bool-cases (y.key == x.key)) [
  | inl hit ↦ ground arith
  | inr miss ↦ lookup-ne-none x front back (rw miss at e)
]

pub without-middle :
    (x : Item) (front back : List Item)
    → IsDistinct (entries (front ++ (x ∷ back)))
    → without x.key (entries (front ++ (x ∷ back))) ≡ entries (front ++ back)
unfolding without
without-middle x [] back d =
    rw ((eq_iff x.key x.key).1 refl) (without_absent x.key (entries back) d.0)
without-middle x (y ∷ front) back d = elim (Bool-cases (y.key == x.key)) [
  | inl hit ↦ absurd (lookup-ne-none x front back (rw ((eq_iff y.key x.key).0 hit) at d.0))
  | inr miss ↦ rw miss (ap (◌∷◌ (y.key, y.score)) (without-middle x front back d.1))
]

-- The place of an entry among the items.
pub insert_entry-middle :
    (o : Order) (x : Item) (front back : List Item)
    → All (precedes o x.key x.score) true front
    → All (precedes o x.key x.score) false back
    → insert_entry o (x.key, x.score) (entries (front ++ back)) ≡ entries (front ++ (x ∷ back))
unfolding insert_entry entry_before precedes
insert_entry-middle o x [] [] p f = refl
insert_entry-middle o x [] (y ∷ back) p f = rw f.0
insert_entry-middle o x (y ∷ front) back p f =
    rw p.0 (ap (◌∷◌ (y.key, y.score)) (insert_entry-middle o x front back p.1 f))

pub record Split (o : Order) (k : String) (v : Number) (xs : List Item) : Type 0 where
  pub front : List Item
  pub back : List Item
  pub whole : xs ≡ front ++ back
  pub passes : All (precedes o k v) true front
  pub fails : All (precedes o k v) false back

module _ (o : Order) (laws : OrderLaws o) (k : String) (v : Number) where
  -- Behind an item that does not come before the entry there is none that does.
  All-fail :
      (x : Item) (xs : List Item)
      → precedes o k v x ≡ false
      → AllAfter o x xs
      → All (precedes o k v) false xs
  All-fail x [] e a = tt
  All-fail x (y ∷ ys) e a = (
    elim (Bool-cases (precedes o k v y)) [
      | inr late ↦ late
      | inl early ↦
          let z : Item = record { at = 0; key = k; score = v; height = 0 } in
          let through = Before-trans o laws x y z a.0 early in absurd (ground arith)
    ],
    All-fail x ys e a.1,
  )

  -- A sorted list is split by the entries that come before the given one.
  pub split : (xs : List Item) → IsSorted o xs → Split o k v xs
  split [] s = record { front = []; back = []; whole = refl; passes = tt; fails = tt }
  split (x ∷ xs) s = elim (Bool-cases (precedes o k v x)) [
    | inl early ↦
        let r = split xs s.1 in
        record {
          front = x ∷ r.front;
          back = r.back;
          whole = ap (◌∷◌ x) r.whole;
          passes = (early, r.passes);
          fails = r.fails;
        }
    | inr late ↦ record {
      front = [];
      back = x ∷ xs;
      whole = refl;
      passes = tt;
      fails = (late, All-fail x xs late s.0);
    }
  ]

-- The item of a key that is there.
pub find :
    (k : String) (v : Number) (xs : List Item)
    → lookup k (entries xs) ≡ some v
    → (front : List Item) × (x : Item) × (back : List Item) × (xs ≡ front ++ (x ∷ back))
      × (x.key ≡ k)
      × (x.score ≡ v)
unfolding lookup
find k v [] e = cc
find k v (x ∷ xs) e = elim (Bool-cases (x.key == k)) [
  | inl hit ↦ ([], x, xs, refl, (eq_iff x.key k).0 hit, ground arith)
  | inr miss ↦
      let (front, y, back, whole, key, score) = find k v xs (rw miss at e) in
      (x ∷ front, y, back, ap (◌∷◌ x) whole, key, score)
]
