-- ===== src/Examples/SeveralRuns.antt =====
-- The theorems on the commands that work on several sets.
use unit_redis_ness.Prelude.{
  String, ◌≡◌, refl, not, ◌&&◌, ◌||◌, false, none, some, List, [], ◌∷◌, ◌++◌, length, pos,
  if◌then◌else◌, ◌==◌,
}
use unit_redis_ness.Outcome.{returns, throws}
use unit_redis_ness.Dictionary
use unit_redis_ness.DatabaseValue.{set, of_payload, get_set, wrong_type}
use unit_redis_ness.Database.{has_lapsed}
use unit_redis_ness.Database.Laws.{view, Leaves, SameView}
use unit_redis_ness.Token.{count, array, texts}
use unit_redis_ness.SetCommands.{has, delete}
use unit_redis_ness.SetCommands.Laws.{HoldsSet, IsSetList}
use unit_redis_ness.SetCommands.Several.{sdiff, sunion, sunionstore, sinter, smove}
use unit_redis_ness.SetCommands.Several.Laws.{in_some, sdiff_lem}
use unit_redis_ness.SetCommands.Several.Union.{sunion_lem, sunionstore_lem}
use unit_redis_ness.SetCommands.Several.Intersection.{Fails, sinter_fails}
use unit_redis_ness.SetCommands.Several.Smove.{taken, smove_lem, smove_loses}
use unit_redis_ness.Examples.Fixture.{database, store, request}

abbrev colours : List String
colours = "red" ∷ "blue" ∷ []

sdiff_example :
    let done = sdiff (request ("tags" ∷ "one" ∷ "warm" ∷ [])) store in
    (ys : List String) × IsSetList ys
    × ((m : String)
        → has m ys ≡ (has m colours && not (in_some 1000 database ("one" ∷ "warm" ∷ []) m)))
    × (done.0 ≡ returns (array (texts ys)))
    × SameView 1000 database done.1.db
unfolding view Dictionary.get has_lapsed has
sdiff_example = sdiff_lem (request ("tags" ∷ "one" ∷ "warm" ∷ [])) store refl (refl, (refl, tt))

sunion_example :
    let done = sunion (request ("tags" ∷ [])) store in
    (ys : List String) × IsSetList ys
    × ((m : String) → has m ys ≡ in_some 1000 database ("tags" ∷ []) m)
    × (done.0 ≡ returns (array (texts ys)))
    × SameView 1000 database done.1.db
unfolding view Dictionary.get has_lapsed
sunion_example = sunion_lem (request ("tags" ∷ [])) store ((colours, refl), tt)

sunionstore_example :
    let done = sunionstore (request ("new" ∷ "tags" ∷ [])) store in
    (ys : List String) × IsSetList ys
    × ((m : String) → has m ys ≡ in_some 1000 database ("tags" ∷ []) m)
    × (done.0 ≡ returns (count (length ys)))
    × Leaves 1000 database done.1.db "new" (some (of_payload (set ys)))
unfolding view Dictionary.get has_lapsed
sunionstore_example = sunionstore_lem (request ("new" ∷ "tags" ∷ [])) store ((colours, refl), tt)

sinter_fails_example :
    let done = sinter (request ("tags" ∷ "tags" ∷ [])) store in
    Fails done.0 × SameView 1000 database done.1.db
unfolding view Dictionary.get has_lapsed
sinter_fails_example =
    sinter_fails (request ("tags" ∷ "tags" ∷ [])) store "tags" ("tags" ∷ []) refl refl

smove_example :
    let done = smove (request ("tags" ∷ "new" ∷ "red" ∷ [])) store in
    (done.0 ≡ returns (count 1))
    × ((j : String)
        → view 1000 done.1.db j ≡ (
            if "tags" == j
            then some (of_payload (set (delete "red" colours)))
            else if "new" == j
            then taken "red" [] (view 1000 database "new")
            else view 1000 database j))
    × ((m : String) → has m (delete "red" colours) ≡ (if "red" == m then false else has m colours))
    × ((m : String) → has m ([] ++ "red" ∷ []) ≡ (has m [] || "red" == m))
unfolding view Dictionary.get has_lapsed HoldsSet has
smove_example =
    smove_lem (request ("tags" ∷ "new" ∷ "red" ∷ [])) store [] none refl (refl, refl) refl refl
      (refl, (refl, tt))

smove_loses_example :
    let done = smove (request ("tags" ∷ "one" ∷ "red" ∷ [])) store in
    (done.0 ≡ throws wrong_type)
    × Leaves 1000 database done.1.db "tags"
        (some (record { value = set (delete "red" colours); expired_at = some (pos 1500) }))
unfolding view Dictionary.get has_lapsed has get_set
smove_loses_example =
    smove_loses (request ("tags" ∷ "one" ∷ "red" ∷ [])) store refl refl refl refl refl
