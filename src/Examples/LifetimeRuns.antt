-- ===== src/Examples/LifetimeRuns.antt =====
-- The theorems on the key commands, at a database with a deadline that has passed.
use unit_redis_ness.Prelude.{String, ◌≡◌, refl, none, [], ◌∷◌, pos, arith, if◌then◌else◌}
use unit_redis_ness.Number.{integer}
use unit_redis_ness.Outcome.{returns}
use unit_redis_ness.Dictionary
use unit_redis_ness.DatabaseValue.{get_type, string as text_value, list}
use unit_redis_ness.Database
use unit_redis_ness.Database.{has_lapsed}
use unit_redis_ness.Database.Laws.{view, SameView}
use unit_redis_ness.Token.{number, text, count, response_ok}
use unit_redis_ness.KeyCommands.Lifetime.{expire, ttl}
use unit_redis_ness.KeyCommands.Lifetime.Laws.{expire_lem, ttl-expire, LivesUntil}
use unit_redis_ness.KeyCommands.Names.{del, rename, type}
use unit_redis_ness.KeyCommands.Names.Laws.{
  del_lem, rename_lem, type_lem, among, count_entries, Renames,
}
use unit_redis_ness.Examples.Decimal.{decimal, decimal_laws}
use unit_redis_ness.Examples.Fixture.{undated, letters, database, store, request}

expire_example :
    let done = expire decimal (request ("count" ∷ "2" ∷ [])) store in
    (done.0 ≡ returns (count 1))
    × LivesUntil 2500 database done.1.db "count" (undated (text_value "41")) 3000
unfolding view Dictionary.get has_lapsed decimal
expire_example =
    expire_lem decimal (request ("count" ∷ "2" ∷ [])) store (undated (text_value "41")) 1 refl refl
      refl decimal_laws (omega arith) 2500

ttl-expire_example :
    (ttl
      (record (request ("count" ∷ [])) { now = 1400 })
      (expire decimal (request ("count" ∷ "9" ∷ [])) store).1).0
    ≡ returns (number (integer (pos 8)))
unfolding view Dictionary.get has_lapsed decimal
ttl-expire_example =
    ttl-expire decimal decimal_laws (request ("count" ∷ "9" ∷ []))
      (record (request ("count" ∷ [])) { now = 1400 }) store (undated (text_value "41")) 8 refl refl
      refl (omega arith) refl

type_example :
    let done = type (request ("letters" ∷ [])) store in
    (done.0 ≡ returns (text "list")) × SameView 1000 database done.1.db
unfolding view Dictionary.get has_lapsed get_type
type_example = type_lem (request ("letters" ∷ [])) store

rename_example :
    let done = rename (request ("letters" ∷ "one" ∷ [])) store in
    (done.0 ≡ returns response_ok)
    × Renames 1000 database done.1.db "letters" "one" (undated (list letters))
unfolding view Dictionary.get has_lapsed
rename_example = rename_lem (request ("letters" ∷ "one" ∷ [])) store (undated (list letters)) refl

del_example :
    let done = del (request ("stale" ∷ "one" ∷ "one" ∷ [])) store in
    (done.0 ≡ returns (count 2))
    × ((j : String)
        → view 1000 done.1.db j
          ≡ (if among ("stale" ∷ "one" ∷ "one" ∷ []) j then none else view 1000 database j))
unfolding count_entries Dictionary.get Dictionary.remove Database.remove
del_example = del_lem (request ("stale" ∷ "one" ∷ "one" ∷ [])) store
