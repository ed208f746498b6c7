-- ===== src/Examples/Fixture.antt =====
-- A database, and requests against it.
use unit_redis_ness.Prelude.{String, none, some, List, [], ◌∷◌, pos}
use unit_redis_ness.Number.{integer}
use unit_redis_ness.DatabaseValue.{DatabaseValue, Payload, string, list, set}
use unit_redis_ness.Database.{Database}
use unit_redis_ness.Command.{Request, Store}

abbrev pub undated : Payload → DatabaseValue
undated p = record { value = p; expired_at = none }

abbrev pub letters : List String
letters = "a" ∷ "b" ∷ "a" ∷ "c" ∷ []

abbrev pub database : Database
database = record {
  items =
      ("letters", undated (list letters))
      ∷ ("one", undated (list ("x" ∷ [])))
      ∷ ("count", undated (string "41"))
      ∷ ("top", undated (string "9007199254740991"))
      ∷ ("session", record { value = string "7"; expired_at = some (pos 1500) })
      ∷ ("tags", record { value = set ("red" ∷ "blue" ∷ []); expired_at = some (pos 1500) })
      ∷ ("warm", undated (set ("red" ∷ "pink" ∷ [])))
      ∷ ("stale", record { value = string "old"; expired_at = some (pos 900) })
      ∷ [];
}

abbrev pub store : Store
store = record { db = database; emitted = [] }

abbrev pub request : List String → Request
request params = record { command = ""; params = params; current_db = integer (pos 0); now = 1000 }
