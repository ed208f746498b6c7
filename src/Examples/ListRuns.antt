-- ===== src/Examples/ListRuns.antt =====
-- The theorems on the list commands, at a database with lists.
use unit_redis_ness.Prelude.{
  ℕ, String, ◌≡◌, refl, none, some, List, [], ◌∷◌, length, eqb, get_elem?, pos, negsuc, arith, inr,
  if◌then◌else◌, ◌==◌,
}
use unit_redis_ness.Number.{integer}
use unit_redis_ness.Outcome.{returns}
use unit_redis_ness.DatabaseValue.{list}
use unit_redis_ness.Dictionary
use unit_redis_ness.Database.{has_lapsed}
use unit_redis_ness.Database.Laws.{view, Leaves, SameView}
use unit_redis_ness.Token.{string, text, texts, count, array, null_string, response_ok}
use unit_redis_ness.Command.{key_event}
use unit_redis_ness.ListCommands.Push.{lpush}
use unit_redis_ness.ListCommands.Push.Laws.{lpush_lem, HoldsList}
use unit_redis_ness.ListCommands.Pop.{rpoplpush}
use unit_redis_ness.ListCommands.Pop.Transfer.{rpoplpush_moves}
use unit_redis_ness.ListCommands.Index.{lindex, lset}
use unit_redis_ness.ListCommands.Index.Laws.{lindex_lem, lset_lem, lindex_last_of_one, element}
use unit_redis_ness.ListCommands.Range.{lrange, ltrim}
use unit_redis_ness.ListCommands.Range.Laws.{lrange_lem, ltrim_lem, lrange_before_start, position}
use unit_redis_ness.ListCommands.Slice.{to_index}
use unit_redis_ness.ListCommands.Slice.Window.{window}
use unit_redis_ness.ListCommands.Rem.{lrem}
use unit_redis_ness.ListCommands.Rem.Laws.{lrem_lem, erase_first, quota, occurrences}
use unit_redis_ness.Examples.Decimal.{decimal}
use unit_redis_ness.Examples.Fixture.{undated, letters, database, store, request}

lpush_example :
    let done = lpush (request ("letters" ∷ "y" ∷ "z" ∷ [])) store in
    (done.0 ≡ returns (count 6))
    × Leaves 1000 database done.1.db "letters" (some (undated (list ("z" ∷ "y" ∷ letters))))
    × (done.1.emitted
        ≡ key_event (integer (pos 0)) "lpush" "letters"
          ∷ key_event (integer (pos 0)) "lpush" "letters"
          ∷ [])
unfolding view Dictionary.get has_lapsed HoldsList
lpush_example = lpush_lem (request ("letters" ∷ "y" ∷ "z" ∷ [])) store letters none refl

rpoplpush_moves_example :
    let done = rpoplpush (request ("letters" ∷ "one" ∷ [])) store in
    (done.0 ≡ returns (string (some "c")))
    × ((j : String)
        → view 1000 done.1.db j ≡ (
            if "letters" == j
            then some (undated (list ("a" ∷ "b" ∷ "a" ∷ [])))
            else if "one" == j
            then some (undated (list ("c" ∷ "x" ∷ [])))
            else view 1000 database j))
unfolding view Dictionary.get has_lapsed HoldsList
rpoplpush_moves_example =
    rpoplpush_moves (request ("letters" ∷ "one" ∷ [])) store "c" ("a" ∷ "b" ∷ "a" ∷ []) ("x" ∷ [])
      none refl refl refl

lindex_example :
    let done = lindex decimal (request ("letters" ∷ "-2" ∷ [])) store in
    (done.0 ≡ returns (text "a")) × SameView 1000 database done.1.db
unfolding view Dictionary.get has_lapsed decimal element
lindex_example =
    lindex_lem decimal (request ("letters" ∷ "-2" ∷ [])) store (negsuc 1) refl refl refl
      (inr (ground arith))

lindex_last_of_one_example :
    ((lindex decimal (request ("one" ∷ "-1" ∷ [])) store).0 ≡ returns null_string)
    × (element ("x" ∷ []) (negsuc 0) ≡ some "x")
unfolding view Dictionary.get has_lapsed decimal
lindex_last_of_one_example =
    lindex_last_of_one decimal (request ("one" ∷ "-1" ∷ [])) store "x" refl refl refl

lset_example :
    let done = lset decimal (request ("letters" ∷ "-1" ∷ "z" ∷ [])) store in
    (done.0 ≡ returns response_ok)
    × (ys : List String) × Leaves 1000 database done.1.db "letters" (some (undated (list ys)))
    × (length ys ≡ 4)
    × ((j : ℕ)
        → get_elem? ys j
          ≡ (if eqb j (to_index 4 (negsuc 0)) then some "z" else get_elem? letters j))
unfolding view Dictionary.get has_lapsed decimal
lset_example =
    lset_lem decimal (request ("letters" ∷ "-1" ∷ "z" ∷ [])) store (negsuc 0) refl refl
      (omega arith)

lrange_example :
    let done = lrange decimal (request ("letters" ∷ "1" ∷ "-2" ∷ [])) store in
    (done.0 ≡ returns (array (texts ("b" ∷ "a" ∷ [])))) × SameView 1000 database done.1.db
unfolding view Dictionary.get has_lapsed HoldsList decimal window position
lrange_example =
    lrange_lem decimal (request ("letters" ∷ "1" ∷ "-2" ∷ [])) store (pos 1) (negsuc 1) letters none
      refl refl refl

lrange_before_start_example :
    (lrange decimal (request ("one" ∷ "0" ∷ "-5" ∷ [])) store).0
    ≡ returns (array (texts ("x" ∷ [])))
unfolding view Dictionary.get has_lapsed HoldsList decimal
lrange_before_start_example =
    lrange_before_start decimal (request ("one" ∷ "0" ∷ "-5" ∷ [])) store 4 "x" [] none refl refl
      (omega arith) refl

ltrim_example :
    let done = ltrim decimal (request ("letters" ∷ "1" ∷ "-2" ∷ [])) store in
    (done.0 ≡ returns response_ok)
    × Leaves 1000 database done.1.db "letters" (some (undated (list ("b" ∷ "a" ∷ []))))
unfolding view Dictionary.get has_lapsed decimal window position
ltrim_example =
    ltrim_lem decimal (request ("letters" ∷ "1" ∷ "-2" ∷ [])) store (pos 1) (negsuc 1) refl refl
      refl (omega arith)

lrem_example :
    let done = lrem decimal (request ("letters" ∷ "1" ∷ "a" ∷ [])) store in
    (done.0 ≡ returns (count 1))
    × Leaves 1000 database done.1.db "letters" (some (undated (list ("b" ∷ "a" ∷ "c" ∷ []))))
unfolding view Dictionary.get has_lapsed decimal quota occurrences erase_first
lrem_example = lrem_lem decimal (request ("letters" ∷ "1" ∷ "a" ∷ [])) store 1 refl refl refl
