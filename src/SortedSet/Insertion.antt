-- ===== src/SortedSet/Insertion.antt =====
-- src/resp/data/sorted-set.ts: `_insert` puts the entry at its place in the order.
mod Closing
pub mod Lists
pub mod Parts
use unit_redis_ness.Prelude.{
  ℕ, zero, suc, ◌+◌, ◌<◌, ◌≤◌, String, Bool, true, false, Option, none, some, List, [], ◌∷◌, ◌++◌,
  length, length-append, ◌≡◌, ◌≢◌, refl, sym, ap, ◌∙◌, arith, ltb, if◌then◌else◌,
}
use unit_redis_ness.Number.{Number, is_nan}
use unit_redis_ness.DatabaseValue.{SortedSet, Node}
use unit_redis_ness.SortedSet.Heap.{Order, ◌>>=◌, next_of, set_prev}
use unit_redis_ness.SortedSet.Insert.{insert, finish, link_back, random_level}
use unit_redis_ness.SortedSet.Chain.{
  Item, From, From-frame, From-append, From-next, From-end, From-tail, From-label, tower, last_at,
  label, entry,
}
use unit_redis_ness.SortedSet.Search.{All}
use unit_redis_ness.SortedSet.Writes.{prev_at, set_prev-Writes, WritesPrev}
use unit_redis_ness.SortedSet.Link.{NotIn, NotIn-append, Apart}
use unit_redis_ness.SortedSet.Shape.{
  OrderLaws, IsSkipList, IsSorted, IsLinked, AllLinked, precedes, Backs, last_of,
}
use unit_redis_ness.SortedSet.Insertion.Parts.{
  random_level-pos, random_level-le, tower-zero, AllLinked-insert, NotIn-made,
}
use unit_redis_ness.SortedSet.Insertion.Lists.{
  NoKey, NotIn-front, Apart-insert, Apart-middle, IsSorted-insert, Backs-append, Backs-join,
  Backs-frame, last_of-append,
}
use unit_redis_ness.SortedSet.Insertion.Closing.{IsClosing, insert-IsClosing, new_item}

-- A write of `prev` keeps the chains.
pub prev_write :
    {h g : List Node} {a i u : ℕ} {p : Option ℕ} {xs : List Item}
    → WritesPrev h g a p
    → From h i u xs
    → From g i u xs
prev_write {i = i} w f =
    From-frame (λ a l e. (l, w.levels a i ∙ e, refl)) (λ a k e. w.labels a ∙ e) f

-- The state after the last step, by its parts.
closed : SortedSet → ℕ → List Node → Option ℕ → SortedSet
closed s level h tail = record s {
  length = suc s.length;
  nodes = h;
  tail = tail;
  level = if ltb s.level level then level else s.level;
}

module _ (o : Order) (laws : OrderLaws o) (s : SortedSet) (x : Item) (front : List Item)
    (fits : IsLinked (suc (length s.nodes)) x.height x) (at_end : x.at ≡ length s.nodes)
    (few : x.height ≤ 32) (passes : All (precedes o x.key x.score) true front) where
  -- All but the pointers back.
  closed-IsSkipList :
      (back : List Item) (h : List Node) (tail : Option ℕ)
      → IsSkipList o s (front ++ back)
      → All (precedes o x.key x.score) false back
      → NoKey x.key (front ++ back)
      → ((i : ℕ) → i < 32 → From h i s.head (tower i (front ++ (x ∷ back))))
      → length h ≡ suc (length s.nodes)
      → Backs h none (front ++ (x ∷ back))
      → tail ≡ last_of none (front ++ (x ∷ back))
      → IsSkipList o (closed s x.height h tail) (front ++ (x ∷ back))
  unfolding closed
  closed-IsSkipList back h tail k fails absent chains size backs ends =
      let le : s.level ≤ (if ltb s.level x.height then x.height else s.level) = ground arith in
      let le' : x.height ≤ (if ltb s.level x.height then x.height else s.level) = ground arith in
      record {
        chains = chains;
        counted =
            omega (arith, k.counted, length-append front back, length-append front (x ∷ back));
        some_level = omega (arith, k.some_level, le);
        few_levels = ground (arith, k.few_levels);
        linked =
            AllLinked-insert (length s.nodes) s.level (length h) _ x front back
              (omega (arith, size)) le
              (record {
                low = fits.low;
                high = le';
                made = omega (arith, fits.made, size);
                numeric = fits.numeric;
              })
              k.linked;
        apart =
            Apart-insert s.head x front back (λ p. absurd (omega (arith, k.head_made, at_end)))
              (rw at_end (NotIn-made (length s.nodes) s.level (front ++ back) k.linked)) k.apart;
        head_made = omega (arith, k.head_made, size);
        sorted =
            IsSorted-insert o laws x fits.numeric (length s.nodes) s.level front back k.linked
              absent passes fails k.sorted;
        backs = backs;
        ends = ends;
      }

  -- The chain of the lowest level holds all items.
  lowest_chain :
      (back : List Item) (h : List Node)
      → IsSkipList o s (front ++ back)
      → IsClosing s x front back h
      → From h 0 x.at back × (label h x.at ≡ entry x) × From h 0 s.head (front ++ (x ∷ back))
  lowest_chain back h k c =
      let all =
        AllLinked-insert (length s.nodes) s.level (suc (length s.nodes)) (s.level + x.height) x
          front back (omega arith) (omega arith)
          (record { low = fits.low; high = omega arith; made = fits.made; numeric = fits.numeric })
          k.linked in
      let whole =
        tower-zero (suc (length s.nodes)) (s.level + x.height) (front ++ (x ∷ back)) all in
      let chain = rw whole at (c.chains 0 (omega arith)) in
      let behind = From-append front chain in (From-tail behind, From-label behind, chain)

  fresh : (back : List Item) → IsSkipList o s (front ++ back) → NotIn x.at front × NotIn x.at back
  fresh back k =
      NotIn-append x.at front back
        (rw at_end (NotIn-made (length s.nodes) s.level (front ++ back) k.linked))

  front-Backs :
      (back : List Item) (h : List Node)
      → IsSkipList o s (front ++ back)
      → IsClosing s x front back h
      → Backs h none front
  front-Backs back h k c =
      Backs-frame s.nodes h x.at none front c.prevs (fresh back k).0
        (Backs-append s.nodes none front back k.backs).0

  pub finish_lem :
      (back : List Item) (h : List Node)
      → IsSkipList o s (front ++ back)
      → All (precedes o x.key x.score) false back
      → NoKey x.key (front ++ back)
      → IsClosing s x front back h
      → (s' : SortedSet) × (finish x.at x.height h s ≡ some s')
        × IsSkipList o s' (front ++ (x ∷ back))
        × (s'.scores ≡ s.scores)
  unfolding finish link_back closed last_of
  finish_lem [] h k fails absent c = (
    closed s x.height h (some x.at),
    rw (From-end (lowest_chain [] h k c).0),
    closed-IsSkipList [] h (some x.at) k fails absent c.chains c.size
        (Backs-join h none front (x ∷ []) (front-Backs [] h k c) (c.prev_new, tt))
        (sym (last_of-append none front (x ∷ []))),
    refl,
  )
  finish_lem (z ∷ zs) h k fails absent c =
      let (behind, named, chain) = lowest_chain (z ∷ zs) h k c in
      let (h', e, w) =
        set_prev-Writes h z.at (some x.at) (some z.key, z.score) (From-label behind) in
      let (out, out') = Apart-middle s.head z front zs k.apart in
      let (new, new') = fresh (z ∷ zs) k in
      let rest = (Backs-append s.nodes none front (z ∷ zs) k.backs).1.1 in
      (
        closed s x.height h' s.tail,
        rw (From-next behind, e),
        closed-IsSkipList (z ∷ zs) h' s.tail k fails absent (λ i lt. prev_write w (c.chains i lt))
            (w.size ∙ c.size)
            (Backs-join h' none front (x ∷ (z ∷ zs))
              (Backs-frame h h' z.at none front w.prevs out (front-Backs (z ∷ zs) h k c))
              (
                w.prevs x.at new'.0 ∙ c.prev_new,
                (
                  w.self,
                  Backs-frame h h' z.at (some z.at) zs w.prevs out'
                      (Backs-frame s.nodes h x.at (some z.at) zs c.prevs new'.1 rest),
                ),
              ))
            (k.ends
              ∙ last_of-append none front (z ∷ zs)
              ∙ sym (last_of-append none front (x ∷ (z ∷ zs)))),
        refl,
      )

-- The item of the new node.
abbrev pub new_item_of : List Bool → String → Number → SortedSet → Item
new_item_of draws key value s = record {
  at = length s.nodes;
  key = key;
  score = value;
  height = random_level draws;
}

-- `_insert` of a key that the set has not: the entry stands behind those that come before it.
pub insert_lem :
    (o : Order) (laws : OrderLaws o) (draws : List Bool) (key : String) (value : Number)
    (s : SortedSet) (front back : List Item)
    → IsSkipList o s (front ++ back)
    → All (precedes o key value) true front
    → All (precedes o key value) false back
    → NoKey key (front ++ back)
    → is_nan value ≡ false
    → (s' : SortedSet) × (insert o draws key value s ≡ some s')
      × IsSkipList o s' (front ++ (new_item_of draws key value s ∷ back))
      × (s'.scores ≡ s.scores)
insert_lem o laws draws key value s front back k passes fails absent number =
    let (h, e, c) =
      insert-IsClosing o laws draws key value s front back k passes fails absent number in
    let x = new_item o laws draws key value s front back k passes fails absent number in
    let fits : IsLinked (suc (length s.nodes)) x.height x = record {
      low = random_level-pos draws;
      high = omega arith;
      made = omega arith;
      numeric = number;
    } in
    let (s', e', k', same) =
      finish_lem o laws s x front fits refl (random_level-le draws) passes back h k fails absent
        c in
    (s', e ∙ e', k', same)
