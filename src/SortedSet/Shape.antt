-- ===== src/SortedSet/Shape.antt =====
-- src/resp/data/sorted-set.ts: the order of the entries, and the shape of a skip list.
use unit_redis_ness.Prelude.{
  ℕ, ◌<◌, ◌≤◌, String, Bool, true, false, ◌&&◌, ◌||◌, Option, none, some, List, [], ◌∷◌, length,
  ◌≡◌, ◌≢◌, refl, ap, arith, eqb_ℤ_iff, eq_iff,
}
use unit_redis_ness.Number.{Number, same, is_nan, nan, infinite, integer, fraction}
use unit_redis_ness.DatabaseValue.{SortedSet, Node}
use unit_redis_ness.SortedSet.Heap.{Order, goes_before, comes_before, key_below}
use unit_redis_ness.SortedSet.Chain.{Item, From, tower, Reads}
use unit_redis_ness.SortedSet.Link.{Apart}
use unit_redis_ness.SortedSet.Writes.{prev_at}

-- Documented behaviour of `<`: a strict order of texts, and of the numbers that are not NaN.
pub record OrderLaws (o : Order) : Type 0 where
  pub less_irrefl : (a : Number) → o.less a a ≡ false
  pub less_trans : (a b c : Number) → o.less a b ≡ true → o.less b c ≡ true → o.less a c ≡ true
  pub less_total :
      (a b : Number)
      → is_nan a ≡ false
      → is_nan b ≡ false
      → o.less a b ≡ false
      → o.less b a ≡ false
      → a ≡ b
  pub key_irrefl : (a : String) → o.key_less a a ≡ false
  pub key_trans :
      (a b c : String) → o.key_less a b ≡ true → o.key_less b c ≡ true → o.key_less a c ≡ true
  pub key_total : (a b : String) → o.key_less a b ≡ false → o.key_less b a ≡ false → a ≡ b

pub same-eq : (a b : Number) → same a b ≡ true → a ≡ b
same-eq nan b e = cc
same-eq (infinite true) (infinite true) e = refl
same-eq (infinite false) (infinite false) e = refl
same-eq (integer a) (integer b) e = ap integer ((eqb_ℤ_iff a b).0 e)
same-eq (fraction f s) (fraction g t) e = ground (arith, eqb_ℤ_iff f g, eq_iff s t)
same-eq a b e = cc

pub same_refl : (a : Number) → is_nan a ≡ false → same a a ≡ true
same_refl nan e = cc
same_refl (infinite true) e = refl
same_refl (infinite false) e = refl
same_refl (integer a) e = (eqb_ℤ_iff a a).1 refl
same_refl (fraction f s) e = rw ((eqb_ℤ_iff f f).1 refl, (eq_iff s s).1 refl)

-- The entry of the item comes before that of key and value.
unfoldable pub precedes : Order → String → Number → Item → Bool
precedes o k v x = o.less x.score v || (same x.score v && o.key_less x.key k)

abbrev pub Before : Order → Item → Item → Type 0
Before o x y = precedes o y.key y.score x ≡ true

abbrev pub AllAfter : Order → Item → List Item → Type 0
AllAfter o x [] = Unit {0}
AllAfter o x (y ∷ ys) = Before o x y × AllAfter o x ys

abbrev pub IsSorted : Order → List Item → Type 0
IsSorted o [] = Unit {0}
IsSorted o (x ∷ xs) = AllAfter o x xs × IsSorted o xs

module _ (o : Order) (laws : OrderLaws o) where
  same-not_less : (a b : Number) → same a b ≡ true → o.less a b ≡ false
  same-not_less a b e = rw (same-eq a b e) (laws.less_irrefl b)

  pub comes_before-Reads : (k : String) (v : Number) → Reads (comes_before o k v) (precedes o k v)
  unfolding comes_before precedes key_below
  comes_before-Reads k v n r x key value = rw (key, value)

  -- The loop of `_insert` stops where that of `_remove` would.
  pub goes_before-Reads : (k : String) (v : Number) → Reads (goes_before o k v) (precedes o k v)
  unfolding goes_before precedes key_below
  goes_before-Reads k v n r x key value = rw (key, value) (ground (arith, same-not_less x.score v))

  pub Before-trans : (x y z : Item) → Before o x y → Before o y z → Before o x z
  unfolding precedes
  Before-trans x y z p q = ground (
    arith,
    laws.less_trans x.score y.score z.score,
    laws.key_trans x.key y.key z.key,
    same-eq x.score y.score,
    same-eq y.score z.score,
  )

  pub Before-irrefl : (x : Item) → precedes o x.key x.score x ≡ false
  unfolding precedes
  Before-irrefl x = rw (laws.less_irrefl x.score, laws.key_irrefl x.key) (ground arith)

  -- Of two entries with different keys one comes before the other.
  pub Before-total :
      (x y : Item)
      → is_nan x.score ≡ false
      → is_nan y.score ≡ false
      → x.key ≢ y.key
      → precedes o y.key y.score x ≡ false
      → Before o y x
  unfolding precedes
  Before-total x y nx ny ne e = ground (
    arith,
    laws.less_total x.score y.score,
    laws.key_total x.key y.key,
    same_refl x.score,
    same_refl y.score,
  )

-- The `prev` pointers along the items, from that of the first.
abbrev pub Backs : List Node → Option ℕ → List Item → Type 0
Backs h p [] = Unit {0}
Backs h p (x ∷ xs) = (prev_at h x.at ≡ p) × Backs h (some x.at) xs

-- The last of the items.
unfoldable pub last_of : Option ℕ → List Item → Option ℕ
last_of p [] = p
last_of p (x ∷ xs) = last_of (some x.at) xs

-- Each item has a level and none above the set's; its node is made; its score is a number.
pub record IsLinked (size level : ℕ) (x : Item) : Type 0 where
  pub low : 0 < x.height
  pub high : x.height ≤ level
  pub made : x.at < size
  pub numeric : is_nan x.score ≡ false

abbrev pub AllLinked : ℕ → ℕ → List Item → Type 0
AllLinked size level [] = Unit {0}
AllLinked size level (x ∷ xs) = IsLinked size level x × AllLinked size level xs

-- The items are the nodes of the list, in its order: on each level those that have it are linked.
pub record IsSkipList (o : Order) (s : SortedSet) (xs : List Item) : Type 0 where
  pub chains : (i : ℕ) → i < 32 → From s.nodes i s.head (tower i xs)
  pub counted : s.length ≡ length xs
  pub some_level : 0 < s.level
  pub few_levels : s.level ≤ 32
  pub linked : AllLinked (length s.nodes) s.level xs
  pub apart : Apart s.head xs
  pub head_made : s.head < length s.nodes
  pub sorted : IsSorted o xs
  pub backs : Backs s.nodes none xs
  pub ends : s.tail ≡ last_of none xs
