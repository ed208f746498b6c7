-- ===== src/SortedSet/Refinement/Reach.antt =====
-- src/resp/data/sorted-set.ts: every set that additions and removals make.
use unit_redis_ness.Prelude.{
  suc, String, Bool, true, false, Option, some, List, [], ◌∷◌, length, ◌≡◌, refl, sym, ap, ◌∙◌,
}
use unit_redis_ness.Number.{Number, is_nan}
use unit_redis_ness.Dictionary.{lookup}
use unit_redis_ness.Dictionary.Laws.{IsDistinct}
use unit_redis_ness.DatabaseValue.{SortedSet}
use unit_redis_ness.SortedSet.{empty, card, score}
use unit_redis_ness.SortedSet.Heap.{Order}
use unit_redis_ness.SortedSet.Remove.{rem}
use unit_redis_ness.SortedSet.Change.{add}
use unit_redis_ness.SortedSet.Listing.{to_array}
use unit_redis_ness.SortedSet.Chain.{Item}
use unit_redis_ness.SortedSet.Shape.{OrderLaws, IsSorted, AllAfter, precedes}
use unit_redis_ness.SortedSet.Entries.{Entry, entries, entry_before, put_entry}
use unit_redis_ness.SortedSet.Refinement.{IsSortedSet, add_lem, rem_lem}
use unit_redis_ness.SortedSet.Refinement.Listing.{empty_lem, to_array_lem}

-- A set made from the empty one by `add` with numbers and by `rem`, whatever the draws.
pub data Reachable (o : Order) : SortedSet → Type 0 where
  start : Reachable o empty
  added :
      {s s' : SortedSet} {c : Option Number}
      → Reachable o s
      → (draws : List Bool) (k : String) (v : Number) → is_nan v ≡ false
      → add o draws k (some v) s ≡ some (c, s')
      → Reachable o s'
  removed :
      {s s' : SortedSet} {c : Option Number}
      → Reachable o s
      → (k : String) → rem o k s ≡ some (c, s')
      → Reachable o s'

abbrev pub AllBehind : Order → Entry → List Entry → Type 0
AllBehind o e [] = Unit {0}
AllBehind o e (f ∷ es) = (entry_before o e f ≡ true) × AllBehind o e es

-- Each entry comes before all that follow it.
abbrev pub IsOrdered : Order → List Entry → Type 0
IsOrdered o [] = Unit {0}
IsOrdered o (e ∷ es) = AllBehind o e es × IsOrdered o es

AllBehind-of :
    (o : Order) (x : Item) (xs : List Item)
    → AllAfter o x xs
    → AllBehind o (x.key, x.score) (entries xs)
unfolding entry_before precedes
AllBehind-of o x [] a = tt
AllBehind-of o x (y ∷ ys) a = (a.0, AllBehind-of o x ys a.1)

IsOrdered-of : (o : Order) (xs : List Item) → IsSorted o xs → IsOrdered o (entries xs)
IsOrdered-of o [] s = tt
IsOrdered-of o (x ∷ xs) s = (AllBehind-of o x xs s.0, IsOrdered-of o xs s.1)

length-entries : (xs : List Item) → length (entries xs) ≡ length xs
length-entries [] = refl
length-entries (x ∷ xs) = ap suc (length-entries xs)

module _ (o : Order) (laws : OrderLaws o) where
  Reachable-IsSortedSet : {s : SortedSet} → Reachable o s → (es : List Entry) × IsSortedSet o s es
  Reachable-IsSortedSet start = ([], empty_lem o)
  Reachable-IsSortedSet (added {s} {s'} {c} before draws k v number e) =
      let (es, r) = Reachable-IsSortedSet before in
      let (s1, e1, r1) = add_lem o laws draws k v s es r number in
      let same : s1 ≡ s' = cc in (put_entry o k v es, rw same at r1)
  Reachable-IsSortedSet (removed {s} {s'} {c} before k e) =
      let (es, r) = Reachable-IsSortedSet before in
      let (s1, e1, r1) = rem_lem o laws k s es r in let same : s1 ≡ s' = cc in (_, rw same at r1)

  -- For an order that is a strict total one on texts and on the numbers that are not NaN: in
  -- every set that additions of scores other than NaN and removals make from the empty one, with
  -- any levels drawn, toArray with the scores gives entries each of which comes before all that
  -- follow it, by score and then by key, each key once, as many as card says, and with the
  -- scores that score replies.
  pub Reachable-IsOrdered :
      {s : SortedSet}
      → Reachable o s
      → (es : List Entry) × (to_array s ≡ some es)
        × IsOrdered o es
        × IsDistinct es
        × (card s ≡ length es)
        × ((k : String) → score s k ≡ lookup k es)
  unfolding score
  Reachable-IsOrdered {s} reached =
      let (es, r) = Reachable-IsSortedSet reached in
      (
        es,
        to_array_lem o s es r,
        rw (← r.list.listed) (IsOrdered-of o r.list.items r.list.shape.sorted),
        r.list.distinct,
        r.list.shape.counted ∙ sym (length-entries r.list.items) ∙ ap length r.list.listed,
        r.scored,
      )
