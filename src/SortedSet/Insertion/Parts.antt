-- ===== src/SortedSet/Insertion/Parts.antt =====
-- src/resp/data/sorted-set.ts, `_insert`: what the parts of it keep, and facts of the list of items.
use unit_redis_ness.Prelude.{
  ℕ, zero, suc, ◌+◌, ◌<◌, ◌≤◌, Bool, true, false, some, List, [], ◌∷◌, ◌++◌, length, ℤ, pos, ◌≡◌,
  refl, ap, ◌∙◌, arith, ltb, lt→ltb, replicate,
}
use native.Mathlib.Decide.{ℕ_discrete}
use unit_redis_ness.DatabaseValue.{Node, Level}
use unit_redis_ness.SortedSet.Heap.{level_at, lowest}
use unit_redis_ness.SortedSet.Insert.{draw, random_level, raise}
use unit_redis_ness.SortedSet.Chain.{Item, tower, From, From-frame, From-level, last_at}
use unit_redis_ness.SortedSet.Search.{Updates, nil, cons}
use unit_redis_ness.SortedSet.Writes.{Writes, set_level-Writes}
use unit_redis_ness.SortedSet.Link.{NotIn}
use unit_redis_ness.SortedSet.Link.Rounds.{Keeps, Keeps-trans}
use unit_redis_ness.SortedSet.Shape.{AllLinked, IsLinked}

draw-le : (draws : List Bool) (n : ℕ) → n ≤ draw draws n
unfolding draw
draw-le [] n = omega arith
draw-le (true ∷ draws) n = omega (arith, draw-le draws (suc n))
draw-le (false ∷ draws) n = omega arith

pub random_level-pos : (draws : List Bool) → 0 < random_level draws
unfolding random_level
random_level-pos draws = ground (arith, draw-le draws 1)

pub random_level-le : (draws : List Bool) → random_level draws ≤ 32
unfolding random_level
random_level-le draws = ground arith

-- A write of a span keeps every chain.
pub span_write :
    {h g : List Node} {a i : ℕ} {l m : Level}
    → level_at h a i ≡ some m
    → l.next ≡ m.next
    → Writes h g a i l
    → {j u : ℕ} {xs : List Item} → From h j u xs
    → From g j u xs
span_write {h = h} {a = a} {i = i} {l = l} there same w {j} f =
    From-frame
      (λ b n found. elim (ℕ_discrete a b) [
        | no other ↦ (n, w.nodes b j other ∙ found, refl)
        | yes here ↦ elim (ℕ_discrete i j) [
          | no else_where ↦ (n, w.levels b j else_where ∙ found, refl)
          | yes level ↦
              let moved : level_at h a i ≡ some n = rw here (rw level found) in
              (l, rw (← here) (rw (← level) w.self), cc)
        ]
      ])
      (λ b k found. w.labels b ∙ found) f

-- The new levels of the head: the chains stay.
pub raise_lem :
    (head length count i : ℕ) (h : List Node) (ys : ℕ → List Item)
    → i + count ≤ 32
    → ((j : ℕ) → j < 32 → From h j head (ys j))
    → (g : List Node) × (raise head length count i h ≡ some g)
      × ((j : ℕ) → j < 32 → From g j head (ys j))
      × Keeps h g
unfolding raise
raise_lem head length zero i h ys few chains =
    (h, refl, chains, record { labels = λ c. refl; prevs = λ c. refl; size = refl })
raise_lem head length (suc count) i h ys few chains =
    let (l, there) = From-level (chains i (omega arith)) in
    let raised : Level = record l { span = pos length } in
    let (g, e, w, deep) = set_level-Writes h head i raised l there in
    let (g', e', chains', keeps) =
      raise_lem head length count (suc i) g ys (omega arith)
        (λ j lt. span_write there refl w (chains j lt)) in
    (
      g',
      rw there (rw e e'),
      chains',
      Keeps-trans (record { labels = w.labels; prevs = w.prevs; size = w.size }) keeps,
    )

pub tower-zero : (size level : ℕ) (xs : List Item) → AllLinked size level xs → tower 0 xs ≡ xs
unfolding tower
tower-zero size level [] a = refl
tower-zero size level (x ∷ xs) a =
    let e : ltb 0 x.height ≡ true = lt→ltb 0 x.height (a.0.low) in
    rw e (ap (◌∷◌ x) (tower-zero size level xs a.1))

pub tower-above :
    (size level i : ℕ) (xs : List Item) → AllLinked size level xs → level ≤ i → tower i xs ≡ []
unfolding tower
tower-above size level i [] a le = refl
tower-above size level i (x ∷ xs) a le =
    let e : ltb i x.height ≡ false = ground (arith, a.0.high) in
    rw e (tower-above size level i xs a.1 le)

-- Above the levels of the set, `update` is the head.
pub Updates-replicate :
    (head size level : ℕ) (front : List Item) (r : ℤ)
    → AllLinked size level front
    → (count i : ℕ) → level ≤ i
    → Updates head front i (replicate count (head, r))
unfolding last_at
Updates-replicate head size level front r a zero i le = nil
Updates-replicate head size level front r a (suc count) i le =
    cons r (rw (tower-above size level i front a le))
      (Updates-replicate head size level front r a count (suc i) (omega arith))

pub AllLinked-front :
    (size level : ℕ) (xs ys : List Item) → AllLinked size level (xs ++ ys) → AllLinked size level xs
AllLinked-front size level [] ys a = tt
AllLinked-front size level (x ∷ xs) ys a = (a.0, AllLinked-front size level xs ys a.1)

wider :
    (size level size' level' : ℕ) (y : Item)
    → size ≤ size'
    → level ≤ level'
    → IsLinked size level y
    → IsLinked size' level' y
wider size level size' level' y le le' a = record {
  low = a.low;
  high = omega (arith, a.high);
  made = omega (arith, a.made);
  numeric = a.numeric;
}

pub AllLinked-insert :
    (size level size' level' : ℕ) (x : Item) (front back : List Item)
    → size ≤ size'
    → level ≤ level'
    → IsLinked size' level' x
    → AllLinked size level (front ++ back)
    → AllLinked size' level' (front ++ (x ∷ back))
AllLinked-insert size level size' level' x [] [] le le' it a = (it, tt)
AllLinked-insert size level size' level' x [] (y ∷ ys) le le' it a = (
  it,
  (
    wider size level size' level' y le le' a.0,
    (AllLinked-insert size level size' level' x [] ys le le' it a.1).1,
  ),
)
AllLinked-insert size level size' level' x (y ∷ front) back le le' it a = (
  wider size level size' level' y le le' a.0,
  AllLinked-insert size level size' level' x front back le le' it a.1,
)

pub NotIn-made : (size level : ℕ) (xs : List Item) → AllLinked size level xs → NotIn size xs
NotIn-made size level [] a = tt
NotIn-made size level (x ∷ xs) a =
    ((λ e. absurd (omega (arith, a.0.made))), NotIn-made size level xs a.1)

-- The lowest of what the search found.
pub Updates-first :
    {head : ℕ} {front : List Item} {update : List (ℕ × ℤ)}
    → Updates head front 0 update
    → 0 < length update
    → (r : ℤ) × (lowest update ≡ some (last_at head (tower 0 front), r))
Updates-first nil some_level = absurd (omega arith)
Updates-first (cons {u = u} r e us) some_level = (r, ap (λ (a : ℕ). some (a, r)) e)
