-- ===== src/SortedSet/Refinement/Listing.antt =====
-- src/resp/data/sorted-set.ts: the empty set, the lists of its entries, and additions one after
-- another.
use unit_redis_ness.Prelude.{
  ℕ, zero, suc, ◌<◌, String, Bool, true, false, negsuc, Option, none, some, List, [], ◌∷◌, map,
  length, ◌≡◌, refl, sym, ap, ◌∙◌, inl, inr, Bool-cases, arith, get_elem?, eqb, if◌then◌else◌, pos,
}
use unit_redis_ness.Number.{Number, nan, infinite, integer, fraction, is_nan}
use unit_redis_ness.Dictionary
use unit_redis_ness.Dictionary.{lookup, without}
use unit_redis_ness.DatabaseValue.{SortedSet, Node, Level}
use unit_redis_ness.SortedSet.{empty, score, new_levels}
use unit_redis_ness.SortedSet.Heap.{Order, ◌>>=◌, level_at, next_of, enough}
use unit_redis_ness.SortedSet.Change.{add, add_each, incr_by, truthy_score, or_zero}
use unit_redis_ness.SortedSet.Listing.{visit, always, all_nodes, key_or_null, keys, to_array}
use unit_redis_ness.SortedSet.Chain.{Item, From, last, step, tower, node_of-label}
use unit_redis_ness.SortedSet.Shape.{OrderLaws, last_of}
use unit_redis_ness.SortedSet.Insertion.Parts.{tower-zero}
use unit_redis_ness.SortedSet.Entries.{Entry, entries, put_entry}
use unit_redis_ness.SortedSet.Refinement.{IsSortedSet, add_lem, rem_lem}

abbrev entry_of : Node → Entry
entry_of n = (key_or_null n.key, n.value)

-- The loop visits the nodes of the chain.
visit_lem :
    {h : List Node} {u : ℕ} {xs : List Item}
    → From h 0 u xs
    → (fuel : ℕ) → length xs < fuel
    → (next : Option ℕ) × (ns : List Node) × (next_of h u 0 ≡ some next)
      × (visit always fuel h next ≡ some ns)
      × (map entry_of ns ≡ entries xs)
unfolding visit next_of
visit_lem f zero few = absurd (omega arith)
visit_lem (last e n) (suc fuel) few = (none, [], rw (e, n), refl, refl)
visit_lem {h} (step {x = x} {xs = xs} e n b f) (suc fuel) few =
    let (next, ns, e', visits, listed) = visit_lem f fuel (omega arith) in
    let (m, found, k, v) = node_of-label h x.at (some x.key) x.score b in
    (some x.at, m ∷ ns, rw (e, n), rw (found, e', visits), rw (k, v, listed))

entries-nil : (xs : List Item) → length xs ≡ 0 → entries xs ≡ []
entries-nil [] e = refl
entries-nil (x ∷ xs) e = absurd (omega arith)

all_nodes_lem :
    (o : Order) (s : SortedSet) (es : List Entry)
    → IsSortedSet o s es
    → (ns : List Node) × (all_nodes s ≡ some ns) × (map entry_of ns ≡ es)
unfolding all_nodes
all_nodes_lem o s es r = elim (Bool-cases (eqb s.length 0)) [
  | inl none_there ↦
      let short : length r.list.items ≡ 0 = ground (arith, r.list.shape.counted) in
      ([], rw none_there, sym (entries-nil r.list.items short) ∙ r.list.listed)
  | inr some_there ↦
      let k = r.list.shape in
      let whole =
        rw (tower-zero (length s.nodes) s.level r.list.items k.linked) at
          (k.chains 0 (omega arith)) in
      let (next, ns, e, visits, listed) = visit_lem whole (enough s) (omega (arith, k.counted)) in
      (ns, rw (some_there, e) visits, listed ∙ r.list.listed)
]

pub to_array_lem :
    (o : Order) (s : SortedSet) (es : List Entry) → IsSortedSet o s es → to_array s ≡ some es
unfolding to_array
to_array_lem o s es r =
    let (ns, e, listed) = all_nodes_lem o s es r in rw (e, ◌>>=◌) (ap some listed)

pub keys_lem :
    (o : Order) (s : SortedSet) (es : List Entry)
    → IsSortedSet o s es
    → keys s ≡ some (map (λ e. e.0) es)
unfolding keys
keys_lem o s es r =
    let (ns, e, listed) = all_nodes_lem o s es r in
    rw (e, ◌>>=◌) (ap some (map-keys ns ∙ ap (map (λ e. e.0)) listed))
  where
    map-keys : (ns : List Node) → map (λ n. key_or_null n.key) ns ≡ map (λ e. e.0) (map entry_of ns)
    map-keys [] = refl
    map-keys (n ∷ ns) = ap (◌∷◌ (key_or_null n.key)) (map-keys ns)

-- The head has all its levels, none of which leads anywhere.
level_at-new_levels :
    (n i : ℕ) → i < n → (l : Level) × (get_elem? (new_levels n) i ≡ some l) × (l.next ≡ none)
unfolding new_levels
level_at-new_levels zero i lt = absurd (omega arith)
level_at-new_levels (suc n) zero lt = (record { next = none; span = pos 0 }, refl, refl)
level_at-new_levels (suc n) (suc i) lt = level_at-new_levels n i (omega arith)

pub empty_lem : (o : Order) → IsSortedSet o empty []
unfolding level_at last_of lookup Dictionary.get tower
empty_lem o = record {
  list = record {
    items = [];
    shape = record {
      chains = λ i lt. let (l, e, n) = level_at-new_levels 32 i lt in last e n;
      counted = refl;
      some_level = omega arith;
      few_levels = omega arith;
      linked = tt;
      apart = tt;
      head_made = omega arith;
      sorted = tt;
      backs = tt;
      ends = refl;
    };
    listed = refl;
    distinct = tt;
  };
  scored = λ k. refl;
}

-- The score after an increment: the sum with the score, which counts as none where it is 0 or NaN.
unfoldable pub new_score : (Number → Number → Number) → Number → Option Number → Number
new_score sum increment none = increment
new_score sum increment (some nan) = increment
new_score sum increment (some (integer (pos zero))) = increment
new_score sum increment (some (integer (pos (suc n)))) = sum (integer (pos (suc n))) increment
new_score sum increment (some (integer (negsuc n))) = sum (integer (negsuc n)) increment
new_score sum increment (some (infinite up)) = sum (infinite up) increment
new_score sum increment (some (fraction f s)) = sum (fraction f s) increment

-- The test and the sum of the code give that score.
incr_by-new_score :
    (sum : Number → Number → Number) (increment : Number) (c : Option Number)
    → (if truthy_score c then sum (or_zero c) increment else increment) ≡ new_score sum increment c
unfolding new_score truthy_score or_zero
incr_by-new_score sum increment none = refl
incr_by-new_score sum increment (some nan) = refl
incr_by-new_score sum increment (some (integer (pos zero))) = refl
incr_by-new_score sum increment (some (integer (pos (suc n)))) = ground arith
incr_by-new_score sum increment (some (integer (negsuc n))) = ground arith
incr_by-new_score sum increment (some (infinite true)) = refl
incr_by-new_score sum increment (some (infinite false)) = refl
incr_by-new_score sum increment (some (fraction f s)) = refl

unfoldable pub put_one : Order → String → Option Number → List Entry → List Entry
put_one o k none es = without k es
put_one o k (some v) es = put_entry o k v es

-- The keys get the scores that they have in the first list.
unfoldable pub put_all : Order → List String → List Entry → List Entry → List Entry
put_all o [] es' es = es
put_all o (k ∷ ks) es' es = put_all o ks es' (put_one o k (lookup k es') es)

module _ (o : Order) (laws : OrderLaws o) where
  -- For an order that is a strict total one on texts and on the numbers that are not NaN, and a
  -- skip list that stands for a list of entries: the entries that toArray lists after add, with
  -- a score that is not NaN, are those of the insertion into the ordered list, so the levels
  -- that the nodes draw do not show.
  pub to_array-add :
      (draws : List Bool) (k : String) (v : Number) (s : SortedSet) (es : List Entry)
      → IsSortedSet o s es
      → is_nan v ≡ false
      → (add o draws k (some v) s >>= λ added. to_array added.1) ≡ some (put_entry o k v es)
  to_array-add draws k v s es r number =
      let (s', e, r') = add_lem o laws draws k v s es r number in
      rw (e, ◌>>=◌) (to_array_lem o s' (put_entry o k v es) r')

  -- For an order that is a strict total one on texts and on the numbers that are not NaN, and a
  -- skip list that stands for a list of entries: incrBy, where its result is not NaN, replies
  -- with the sum of the key's score and the increment, or with the increment alone where the key
  -- has no score or the score is 0 or NaN, and leaves the entries in which the key has that
  -- score.
  pub incr_by_lem :
      (sum : Number → Number → Number) (draws : List Bool) (increment : Number) (k : String)
      (s : SortedSet) (es : List Entry)
      → IsSortedSet o s es
      → is_nan (new_score sum increment (lookup k es)) ≡ false
      → (s' : SortedSet) × (incr_by o sum draws increment k s
          ≡ some (new_score sum increment (lookup k es), s'))
        × IsSortedSet o s' (put_entry o k (new_score sum increment (lookup k es)) es)
  unfolding incr_by score
  incr_by_lem sum draws increment k s es r number =
      let v = new_score sum increment (lookup k es) in
      let (s', e, r') = add_lem o laws draws k v s es r number in
      (s', rw (r.scored k, incr_by-new_score sum increment (lookup k es), e), r')

  change_lem :
      (draws : List Bool) (k : String) (s : SortedSet) (es : List Entry) (c : Option Number)
      → IsSortedSet o s es
      → ((v : Number) → c ≡ some v → is_nan v ≡ false)
      → (s' : SortedSet) × (add o draws k c s ≡ some (lookup k es, s'))
        × IsSortedSet o s' (put_one o k c es)
  unfolding put_one add
  change_lem draws k s es none r numeric = rem_lem o laws k s es r
  change_lem draws k s es (some v) r numeric =
      let (s', e, r') = add_lem o laws draws k v s es r (numeric v refl) in
      (s', (unfold add in e), r')

  -- For an order that is a strict total one on texts and on the numbers that are not NaN, and
  -- two skip lists that stand for entries, the scores of the other one not NaN: addAll ends
  -- without a TypeError and leaves the entries that come of the keys, in the order in which they
  -- are met, one after another getting the score that they have in the other set, and of a key
  -- that has none there losing it.
  pub add_each_lem :
      (ds : List (List Bool)) (ks : List String) (other s : SortedSet) (es' es : List Entry)
      → IsSortedSet o other es'
      → ((k : String) (v : Number) → lookup k es' ≡ some v → is_nan v ≡ false)
      → IsSortedSet o s es
      → (s' : SortedSet) × (add_each o ds ks other s ≡ some s')
        × IsSortedSet o s' (put_all o ks es' es)
  unfolding add_each put_all score
  add_each_lem ds [] other s es' es r' numeric r = (s, refl, r)
  add_each_lem [] (k ∷ ks) other s es' es r' numeric r =
      let (s1, e, r1) = change_lem [] k s es (lookup k es') r (numeric k) in
      let (s2, e2, r2) =
        add_each_lem [] ks other s1 es' (put_one o k (lookup k es') es) r' numeric r1 in
      (s2, rw (r'.scored k, e) e2, r2)
  add_each_lem (draws ∷ ds) (k ∷ ks) other s es' es r' numeric r =
      let (s1, e, r1) = change_lem draws k s es (lookup k es') r (numeric k) in
      let (s2, e2, r2) =
        add_each_lem ds ks other s1 es' (put_one o k (lookup k es') es) r' numeric r1 in
      (s2, rw (r'.scored k, e) e2, r2)
