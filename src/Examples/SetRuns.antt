-- ===== src/Examples/SetRuns.antt =====
-- The theorems on the set commands, at a database with a set that has a deadline.
use unit_redis_ness.Prelude.{
  String, ◌≡◌, refl, not, ◌&&◌, ◌||◌, some, List, [], ◌∷◌, length, pos, ◌-◌,
}
use unit_redis_ness.Outcome.{returns}
use unit_redis_ness.Dictionary
use unit_redis_ness.DatabaseValue.{set}
use unit_redis_ness.Database.{has_lapsed}
use unit_redis_ness.Database.Laws.{view, Leaves}
use unit_redis_ness.Token.{count}
use unit_redis_ness.SetCommands.{has, sadd, srem}
use unit_redis_ness.SetCommands.Laws.{sadd_lem, srem_lem, HoldsSet, IsSetList, kept}
use unit_redis_ness.Examples.Fixture.{undated, database, store, request}

sadd_example :
    let done = sadd (request ("tags" ∷ "red" ∷ "green" ∷ [])) store in
    (ys : List String) × IsSetList ys
    × ((m : String) → has m ys ≡ (has m ("red" ∷ "blue" ∷ []) || has m ("red" ∷ "green" ∷ [])))
    × Leaves 1000 database done.1.db "tags" (some (undated (set ys)))
    × (done.0 ≡ returns (count (length ys - 2)))
unfolding view Dictionary.get has_lapsed HoldsSet has
sadd_example =
    sadd_lem (request ("tags" ∷ "red" ∷ "green" ∷ [])) store ("red" ∷ "blue" ∷ []) (some (pos 1500))
      refl (refl, (refl, tt))

srem_example :
    let done = srem (request ("tags" ∷ "red" ∷ "green" ∷ [])) store in
    (ys : List String) × IsSetList ys
    × ((m : String)
        → has m ys ≡ (has m ("red" ∷ "blue" ∷ []) && not (has m ("red" ∷ "green" ∷ []))))
    × Leaves 1000 database done.1.db "tags" (kept ys (some (pos 1500)))
    × (done.0 ≡ returns (count (2 - length ys)))
unfolding view Dictionary.get has_lapsed has
srem_example =
    srem_lem (request ("tags" ∷ "red" ∷ "green" ∷ [])) store "red" ("blue" ∷ []) refl
      (refl, (refl, tt))
