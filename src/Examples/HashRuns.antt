-- ===== src/Examples/HashRuns.antt =====
-- The theorems on the hash commands, at a key that holds nothing yet.
use unit_redis_ness.Prelude.{String, ◌≡◌, refl, some, List, [], ◌∷◌, ◌-◌}
use unit_redis_ness.Outcome.{returns}
use unit_redis_ness.Dictionary
use unit_redis_ness.Dictionary.{Dictionary, lookup}
use unit_redis_ness.DatabaseValue.{hash, of_payload}
use unit_redis_ness.Database.{has_lapsed}
use unit_redis_ness.Database.Laws.{view, Leaves}
use unit_redis_ness.Token.{count, text}
use unit_redis_ness.HashCommands.{hset, hget}
use unit_redis_ness.HashCommands.Laws.{
  assigned, HoldsHash, or_empty, IsFilled, hset_counts, hget-hset,
}
use unit_redis_ness.Examples.Fixture.{database, store, request}

abbrev two_fields : List String
two_fields = "x" ∷ "1" ∷ "y" ∷ "2" ∷ []

empty-IsFilled : IsFilled Dictionary.empty
unfolding Dictionary.get lookup
empty-IsFilled f v e = cc

hset_counts_example :
    let done = hset (request ("point" ∷ two_fields)) store in
    (h : Dictionary String) × ((f : String)
      → Dictionary.get h f
        ≡ assigned two_fields f (Dictionary.get (Dictionary.empty {V = String}) f))
    × Leaves 1000 database done.1.db "point" (some (of_payload (hash h)))
    × (done.0
        ≡ returns (count (Dictionary.size h - Dictionary.size (Dictionary.empty {V = String}))))
unfolding view Dictionary.get has_lapsed HoldsHash
hset_counts_example =
    hset_counts (request ("point" ∷ two_fields)) store Dictionary.empty refl refl empty-IsFilled
      (refl, (refl, tt))

hget-hset_example :
    let done = hset (request ("point" ∷ two_fields)) store in
    (hget (request ("point" ∷ "y" ∷ [])) done.1).0
    ≡ returns (
        text
          (or_empty (assigned two_fields "y" (Dictionary.get (Dictionary.empty {V = String}) "y"))))
unfolding view Dictionary.get has_lapsed HoldsHash
hget-hset_example =
    hget-hset (request ("point" ∷ two_fields)) store Dictionary.empty refl refl
      (request ("point" ∷ "y" ∷ [])) refl
