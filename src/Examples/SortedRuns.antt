-- ===== src/Examples/SortedRuns.antt =====
-- Runs of the sorted set, and its theorems at concrete inputs.
use unit_redis_ness.Prelude.{
  String, true, false, Option, some, List, [], ◌∷◌, length, ◌≡◌, refl, pos, ◌+ℤ◌, ◌-ℤ◌, arith,
}
use unit_redis_ness.Number.{Number, integer, is_nan}
use unit_redis_ness.Dictionary.{lookup, without, insert}
use unit_redis_ness.Dictionary.Laws.{IsDistinct}
use unit_redis_ness.DatabaseValue.{SortedSet}
use unit_redis_ness.SortedSet.{empty, card, score}
use unit_redis_ness.Dictionary
use unit_redis_ness.SortedSet
use unit_redis_ness.SortedSet.Insert
use unit_redis_ness.SortedSet.Heap.{
  ◌>>=◌, descend, walk, level_at, set_level, set_prev, next_of, goes_before, comes_before,
  key_below,
}
use unit_redis_ness.SortedSet.Insert.{
  raise, random_level, draw, link_all, link, widen, push_level, finish, link_back,
}
use unit_redis_ness.SortedSet.Change.{add, add_score, place, add_each, incr_by}
use unit_redis_ness.SortedSet.Remove.{
  rem, rem_found, remove, remove_found, remove_node, unlink, unlink_all, unlink_back, points_at,
  is_entry, key_is, lower,
}
use unit_redis_ness.SortedSet.Listing.{to_array, all_nodes, visit}
use unit_redis_ness.SortedSet.Entries.{Entry, put_entry, insert_entry}
use unit_redis_ness.SortedSet.Refinement.{IsSortedSet, add_lem, rem_lem}
use unit_redis_ness.SortedSet.Refinement.Listing.{
  empty_lem, to_array-add, incr_by_lem, add_each_lem, new_score, put_all,
}
use unit_redis_ness.SortedSet.Refinement.Reach.{start, added, IsOrdered, Reachable-IsOrdered}
use unit_redis_ness.Examples.Decimal.{decimal}
use unit_redis_ness.Examples.Ordering.{natural, natural_laws}

abbrev one : Number
one = integer (pos 1)

abbrev two : Number
two = integer (pos 2)

abbrev five : Number
five = integer (pos 5)

-- Four additions, one of which moves a key: the levels are those of the draws.
abbrev filled : Option SortedSet
filled = add natural (true ∷ []) "b" (some two) empty >>= λ a.
    add natural [] "a" (some two) a.1 >>= λ b.
    add natural (true ∷ true ∷ []) "z" (some one) b.1 >>= λ c.
    add natural [] "b" (some five) c.1 >>= λ d. some d.1

filled_entries : (filled >>= to_array) ≡ some (("z", one) ∷ ("a", two) ∷ ("b", five) ∷ [])
unfolding add add_score place to_array all_nodes visit natural Dictionary.get Dictionary.put lookup
    insert without SortedSet.Insert.insert descend walk level_at SortedSet.new_levels raise
    random_level draw set_level set_prev link_all link widen push_level finish next_of link_back
    goes_before comes_before key_below rem rem_found remove remove_found remove_node unlink
    unlink_all unlink_back points_at is_entry key_is lower ◌+ℤ◌ ◌-ℤ◌
filled_entries = refl

-- The set of one entry, that the theorem on `add` gives.
abbrev single :
    (s : SortedSet) × (add natural (true ∷ []) "b" (some two) empty ≡ some (lookup "b" [], s))
    × IsSortedSet natural s (put_entry natural "b" two [])
single = add_lem natural natural_laws (true ∷ []) "b" two empty [] (empty_lem natural) refl

add_lem_example :
    (s : SortedSet) × (add natural [] "b" (some five) single.0
      ≡ some (lookup "b" (put_entry natural "b" two []), s))
    × IsSortedSet natural s (put_entry natural "b" five (put_entry natural "b" two []))
add_lem_example =
    add_lem natural natural_laws [] "b" five single.0 (put_entry natural "b" two []) single.2 refl

rem_lem_example :
    (s : SortedSet) × (rem natural "b" single.0
      ≡ some (lookup "b" (put_entry natural "b" two []), s))
    × IsSortedSet natural s (without "b" (put_entry natural "b" two []))
rem_lem_example = rem_lem natural natural_laws "b" single.0 (put_entry natural "b" two []) single.2

to_array-add_example :
    (add natural (true ∷ true ∷ []) "a" (some two) single.0 >>= λ a. to_array a.1)
    ≡ some (put_entry natural "a" two (put_entry natural "b" two []))
to_array-add_example =
    to_array-add natural natural_laws (true ∷ true ∷ []) "a" two single.0
      (put_entry natural "b" two []) single.2 refl

incr_by_lem_example :
    (s : SortedSet) × (incr_by natural decimal.add [] one "b" single.0
      ≡ some (new_score decimal.add one (lookup "b" (put_entry natural "b" two [])), s))
    × IsSortedSet natural s (
        put_entry natural "b"
          (new_score decimal.add one (lookup "b" (put_entry natural "b" two [])))
          (put_entry natural "b" two []))
unfolding lookup put_entry insert_entry without new_score decimal ◌+ℤ◌
incr_by_lem_example =
    incr_by_lem natural natural_laws decimal.add [] one "b" single.0 (put_entry natural "b" two [])
      single.2 refl

numeric : (k : String) (v : Number) → lookup k (("b", two) ∷ []) ≡ some v → is_nan v ≡ false
unfolding lookup
numeric k v e = ground arith

add_each_lem_example :
    (s : SortedSet) × (add_each natural ([] ∷ []) ("b" ∷ []) single.0 empty ≡ some s)
    × IsSortedSet natural s (put_all natural ("b" ∷ []) (put_entry natural "b" two []) [])
unfolding put_entry insert_entry without
add_each_lem_example =
    add_each_lem natural natural_laws ([] ∷ []) ("b" ∷ []) single.0 empty
      (put_entry natural "b" two []) [] single.2 numeric (empty_lem natural)

Reachable-IsOrdered_example :
    (es : List Entry) × (to_array single.0 ≡ some es)
    × IsOrdered natural es
    × IsDistinct es
    × (card single.0 ≡ length es)
    × ((k : String) → score single.0 k ≡ lookup k es)
Reachable-IsOrdered_example =
    Reachable-IsOrdered natural natural_laws (added start (true ∷ []) "b" two refl single.1)
