-- ===== src/SortedSet/Refinement.antt =====
-- src/resp/data/sorted-set.ts: `add` and `rem` on a skip list do what the list of entries says.
pub mod Listing
pub mod Reach
use unit_redis_ness.Prelude.{
  ℕ, zero, suc, ◌<◌, String, Bool, true, false, Option, none, some, List, [], ◌∷◌, ◌++◌, length,
  ◌≡◌, ◌≢◌, refl, sym, ap, ◌∙◌, inl, inr, Bool-cases, Option-cases, arith, ◌==◌, eq_iff,
  if◌then◌else◌,
}
use unit_redis_ness.Number.{Number, same, is_nan}
use unit_redis_ness.Dictionary
use unit_redis_ness.Dictionary.{lookup, without}
use unit_redis_ness.Dictionary.Laws.{
  IsDistinct, IsDistinct-without, without_absent, lookup-without, get-put,
}
use unit_redis_ness.DatabaseValue.{SortedSet}
use unit_redis_ness.SortedSet.{empty}
use unit_redis_ness.SortedSet.Heap.{Order, ◌>>=◌}
use unit_redis_ness.SortedSet.Insert.{insert}
use unit_redis_ness.SortedSet.Remove.{remove, rem, rem_found}
use unit_redis_ness.SortedSet.Change.{add, add_score, place}
use unit_redis_ness.SortedSet.Chain.{Item}
use unit_redis_ness.SortedSet.Search.{All}
use unit_redis_ness.SortedSet.Shape.{OrderLaws, IsSkipList, IsSorted, precedes, same-eq, AllLinked}
use unit_redis_ness.SortedSet.Insertion.{insert_lem, new_item_of}
use unit_redis_ness.SortedSet.Removal.{remove_lem}
use unit_redis_ness.SortedSet.Removal.Lists.{IsSorted-delete}
use unit_redis_ness.SortedSet.Entries.{
  Entry, entries, insert_entry, put_entry, Split, split, find, NoKey-of_lookup, lookup-middle,
  IsDistinct-middle, without-middle, insert_entry-middle,
}

-- The skip list holds the entries in order, each key once.
pub record IsListed (o : Order) (s : SortedSet) (es : List Entry) : Type 0 where
  pub items : List Item
  pub shape : IsSkipList o s items
  pub listed : entries items ≡ es
  pub distinct : IsDistinct es

-- The set stands for the entries: `_map` has the score of each key, too.
pub record IsSortedSet (o : Order) (s : SortedSet) (es : List Entry) : Type 0 where
  pub list : IsListed o s es
  pub scored : (k : String) → Dictionary.get s.scores k ≡ lookup k es

numeric_at :
    (size level : ℕ) (x : Item) (front back : List Item)
    → AllLinked size level (front ++ (x ∷ back))
    → is_nan x.score ≡ false
numeric_at size level x [] back a = a.0.numeric
numeric_at size level x (y ∷ front) back a = numeric_at size level x front back a.1

get-without :
    (d : Dictionary.Dictionary Number) (k j : String)
    → Dictionary.get (record { items = without k d.items }) j
      ≡ (if k == j then none else Dictionary.get d j)
unfolding Dictionary.get
get-without d k j = lookup-without k j d.items

rescored :
    (o : Order) (s : SortedSet) (xs : List Item) (m : Dictionary.Dictionary Number)
    → IsSkipList o s xs
    → IsSkipList o (record s { scores = m }) xs
rescored o s xs m k = record {
  chains = k.chains;
  counted = k.counted;
  some_level = k.some_level;
  few_levels = k.few_levels;
  linked = k.linked;
  apart = k.apart;
  head_made = k.head_made;
  sorted = k.sorted;
  backs = k.backs;
  ends = k.ends;
}

module _ (o : Order) (laws : OrderLaws o) where
  -- `_insert` and the entry of `_map`, for a new key.
  place_at :
      (draws : List Bool) (k : String) (v : Number) (s : SortedSet) (front back : List Item)
      → IsSkipList o s (front ++ back)
      → All (precedes o k v) true front
      → All (precedes o k v) false back
      → IsDistinct (entries (front ++ back))
      → ((j : String)
          → (k == j) ≡ false
          → Dictionary.get s.scores j ≡ lookup j (entries (front ++ back)))
      → lookup k (entries (front ++ back)) ≡ none
      → is_nan v ≡ false
      → (s' : SortedSet) × (place o draws k v s ≡ some s')
        × IsSortedSet o s' (insert_entry o (k, v) (entries (front ++ back)))
  unfolding place
  place_at draws k v s front back shape p f distinct scored absent number =
      let x = new_item_of draws k v s in
      let (s', e, shape', same) =
        insert_lem o laws draws k v s front back shape p f
          (NoKey-of_lookup k (front ++ back) absent) number in
      (
        record s' { scores = Dictionary.put s'.scores k v },
        rw e,
        rw (insert_entry-middle o x front back p f) (record {
          list = record {
            items = front ++ (x ∷ back);
            shape = rescored o s' (front ++ (x ∷ back)) (Dictionary.put s'.scores k v) shape';
            listed = refl;
            distinct = IsDistinct-middle x front back absent distinct;
          };
          scored = λ j.
              get-put s'.scores k j v
              ∙ (rw (same, lookup-middle x front back j absent)
                  (elim (Bool-cases (k == j)) [
                    | inl hit ↦ rw hit
                    | inr miss ↦ rw miss (scored j miss)
                  ]));
        }),
      )

  place_lem :
      (draws : List Bool) (k : String) (v : Number) (s : SortedSet) (es : List Entry)
      → IsListed o s es
      → ((j : String) → (k == j) ≡ false → Dictionary.get s.scores j ≡ lookup j es)
      → lookup k es ≡ none
      → is_nan v ≡ false
      → (s' : SortedSet) × (place o draws k v s ≡ some s')
        × IsSortedSet o s' (insert_entry o (k, v) es)
  place_lem draws k v s es r scored absent number =
      let sp = split o laws k v r.items r.shape.sorted in
      let all : entries (sp.front ++ sp.back) ≡ es = ap entries (sym sp.whole) ∙ r.listed in
      rw all at (
        place_at draws k v s sp.front sp.back (rw sp.whole at r.shape) sp.passes sp.fails
          (rw all r.distinct) (λ j miss. scored j miss ∙ ap (lookup j) (sym all)) (rw all absent)
          number)

  -- `_remove` of an entry, which leaves `_map` as it is.
  Removes : String → Number → SortedSet → List Entry → Type 0
  Removes k v s es =
      (s' : SortedSet) × (remove o k v s ≡ some s')
      × (s'.scores ≡ s.scores)
      × IsListed o s' (without k es)

  remove_at :
      (s : SortedSet) (x : Item) (front back : List Item)
      → IsSkipList o s (front ++ (x ∷ back))
      → IsDistinct (entries (front ++ (x ∷ back)))
      → Removes x.key x.score s (entries (front ++ (x ∷ back)))
  unfolding Removes
  remove_at s x front back shape distinct =
      let number = numeric_at (length s.nodes) s.level x front back shape.linked in
      let (s', e, shape', same) = remove_lem o laws s x front back shape number in
      let left = without-middle x front back distinct in
      (
        s',
        e,
        same,
        record {
          items = front ++ back;
          shape = shape';
          listed = sym left;
          distinct = IsDistinct-without x.key (entries (front ++ (x ∷ back))) distinct;
        },
      )

  remove_entry :
      (k : String) (v : Number) (s : SortedSet) (es : List Entry)
      → IsListed o s es
      → lookup k es ≡ some v
      → Removes k v s es
  remove_entry k v s es r here =
      let (front, x, back, whole, key, score) = find k v r.items (rw r.listed here) in
      let all : entries (front ++ (x ∷ back)) ≡ es = ap entries (sym whole) ∙ r.listed in
      rw (key, score, all) at (remove_at s x front back (rw whole at r.shape) (rw all r.distinct))

  -- An entry that is there stays where it is.
  put_entry_same :
      (k : String) (v : Number) (s : SortedSet) (es : List Entry)
      → IsListed o s es
      → lookup k es ≡ some v
      → put_entry o k v es ≡ es
  unfolding put_entry
  put_entry_same k v s es r here =
      let (front, x, back, whole, key, score) = find k v r.items (rw r.listed here) in
      let all : entries (front ++ (x ∷ back)) ≡ es = ap entries (sym whole) ∙ r.listed in
      let sorted = IsSorted-delete o laws x front back (rw whole at r.shape.sorted) in
      let left = without-middle x front back (rw all r.distinct) in
      let same : put_entry o x.key x.score (entries (front ++ (x ∷ back)))
          ≡ entries (front ++ (x ∷ back)) =
        rw left (insert_entry-middle o x front back sorted.1 sorted.2.1) in
      rw (key, score, all) at same

  add_score_lem :
      (draws : List Bool) (k : String) (v : Number) (s : SortedSet) (es : List Entry)
      (c : Option Number)
      → IsSortedSet o s es
      → lookup k es ≡ c
      → is_nan v ≡ false
      → (s' : SortedSet) × (add_score o draws k v c s ≡ some (c, s'))
        × IsSortedSet o s' (put_entry o k v es)
  unfolding add_score put_entry Removes
  add_score_lem draws k v s es none r here number =
      let (s', e, r') = place_lem draws k v s es r.list (λ j miss. r.scored j) here number in
      (s', rw e, rw (without_absent k es here) r')
  add_score_lem draws k v s es (some c) r here number = elim (Bool-cases (same v c)) [
    | inl equal ↦
        let e : lookup k es ≡ some v = here ∙ ap some (sym (same-eq v c equal)) in
        (s, rw (add_score, equal), rw (put_entry_same k v s es r.list e) r)
    | inr other ↦
        let (s1, e, kept, left) = remove_entry k c s es r.list here in
        let gone : lookup k (without k es) ≡ none =
          ground (arith, lookup-without k k es, eq_iff k k) in
        let (s', e', r') =
          place_lem draws k v s1 (without k es) left
            (λ j miss. rw (kept, lookup-without k j es, miss) (r.scored j)) gone number in
        (s', rw (add_score, other, e, ◌>>=◌, e'), r')
  ]

  -- For an order that is a strict total one on texts and on the numbers that are not NaN, and a
  -- skip list that stands for a list of entries: add, with a score that is not NaN, ends without
  -- a TypeError, replies with the score that the key had, and leaves a skip list that stands for
  -- the entries with the key at its place in the order and its old entry gone, whatever level
  -- the new node draws. A skip list stands for entries where every level links, in order, the
  -- nodes that have it, the pointers back, the tail, the length and the level fit, each key is
  -- there once, and the map has the score of each key; of the spans nothing is said.
  pub add_lem :
      (draws : List Bool) (k : String) (v : Number) (s : SortedSet) (es : List Entry)
      → IsSortedSet o s es
      → is_nan v ≡ false
      → (s' : SortedSet) × (add o draws k (some v) s ≡ some (lookup k es, s'))
        × IsSortedSet o s' (put_entry o k v es)
  unfolding add
  add_lem draws k v s es r number =
      rw (r.scored k) (add_score_lem draws k v s es (lookup k es) r refl number)

  rem_found_lem :
      (k : String) (s : SortedSet) (es : List Entry) (c : Option Number)
      → IsSortedSet o s es
      → lookup k es ≡ c
      → (s' : SortedSet) × (rem_found o k c s ≡ some (c, s')) × IsSortedSet o s' (without k es)
  unfolding rem_found Removes
  rem_found_lem k s es none r here = (s, refl, rw (without_absent k es here) r)
  rem_found_lem k s es (some c) r here =
      let (s1, e, kept, left) = remove_entry k c s es r.list here in
      let m : Dictionary.Dictionary Number = record { items = without k s1.scores.items } in
      (
        record s1 { scores = m },
        rw e,
        record {
          list = record {
            items = left.items;
            shape = rescored o s1 left.items m left.shape;
            listed = left.listed;
            distinct = left.distinct;
          };
          scored = λ j. get-without s1.scores k j ∙ rw (kept, r.scored j, lookup-without k j es);
        },
      )

  -- For an order that is a strict total one on texts and on the numbers that are not NaN, and a
  -- skip list that stands for a list of entries: rem ends without a TypeError, replies with the
  -- score of the key, if it has one, and leaves a skip list that stands for the entries without
  -- the key.
  pub rem_lem :
      (k : String) (s : SortedSet) (es : List Entry)
      → IsSortedSet o s es
      → (s' : SortedSet) × (rem o k s ≡ some (lookup k es, s')) × IsSortedSet o s' (without k es)
  unfolding rem
  rem_lem k s es r = rw (r.scored k) (rem_found_lem k s es (lookup k es) r refl)
