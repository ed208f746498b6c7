-- ===== src/Examples/KeyRuns.antt =====
-- The theorems on the string and key commands, at a database with texts and deadlines.
use unit_redis_ness.Prelude.{◌≡◌, refl, some, [], ◌∷◌, pos, negsuc, ◌+ℤ◌, ◌*ℤ◌, arith}
use unit_redis_ness.Number.{integer}
use unit_redis_ness.Outcome.{returns}
use unit_redis_ness.Dictionary
use unit_redis_ness.DatabaseValue.{string as text_value}
use unit_redis_ness.Database.{has_lapsed}
use unit_redis_ness.Database.Laws.{view, Leaves, SameView}
use unit_redis_ness.Token.{number, count, null_string, response_ok}
use unit_redis_ness.StringCommands.Basic.{get_command, setnx}
use unit_redis_ness.StringCommands.Basic.Laws.{get_command_lem, setnx_declines}
use unit_redis_ness.StringCommands.Options.{set}
use unit_redis_ness.StringCommands.Options.Asked.{set_writes}
use unit_redis_ness.StringCommands.Options.Grammar.{
  Asks, nothing, flag, in_seconds, if_absent, IsFlag, Allows,
}
use unit_redis_ness.StringCommands.Counter.{incr, incrby, would_overflow}
use unit_redis_ness.StringCommands.Counter.Laws.{incr_lem, incr_refuses, incrby_lem, decrby_refuses}
use unit_redis_ness.Examples.Decimal.{decimal, decimal_laws}
use unit_redis_ness.Examples.Fixture.{undated, database, store, request}

get_command_example :
    let done = get_command (request ("stale" ∷ [])) store in
    (done.0 ≡ returns null_string) × SameView 1000 database done.1.db
unfolding view Dictionary.get has_lapsed
get_command_example = get_command_lem (request ("stale" ∷ [])) store

setnx_declines_example :
    let done = setnx (request ("count" ∷ "new" ∷ [])) store in
    (done.0 ≡ returns (count 0)) × SameView 1000 database done.1.db
unfolding view Dictionary.get has_lapsed
setnx_declines_example =
    setnx_declines (request ("count" ∷ "new" ∷ [])) store (undated (text_value "41")) refl

in_two_seconds : Asks decimal ("nx" ∷ "ex" ∷ "2" ∷ []) if_absent (some 2000)
unfolding IsFlag decimal
in_two_seconds = flag refl (in_seconds 1 refl refl nothing)

set_writes_example :
    let done = set decimal (request ("stale" ∷ "v" ∷ "nx" ∷ "ex" ∷ "2" ∷ [])) store in
    (done.0 ≡ returns response_ok)
    × Leaves 1000 database done.1.db "stale"
        (some (record { value = text_value "v"; expired_at = some (pos 3000) }))
unfolding view Dictionary.get has_lapsed decimal Allows
set_writes_example =
    set_writes decimal decimal_laws (request ("stale" ∷ "v" ∷ "nx" ∷ "ex" ∷ "2" ∷ [])) store
      in_two_seconds (omega arith) refl

incr_example :
    let done = incr decimal (pos 1) (request ("count" ∷ [])) store in
    (done.0 ≡ returns (number (integer (pos 42))))
    × Leaves 1000 database done.1.db "count" (some (undated (text_value "42")))
unfolding view Dictionary.get has_lapsed decimal ◌+ℤ◌
incr_example =
    incr_lem decimal decimal_laws (request ("count" ∷ [])) store "41" (pos 41) refl refl (pos 1)
      refl (omega arith)

incr_refuses_example :
    let done = incr decimal (pos 1) (request ("top" ∷ [])) store in
    (done.0 ≡ returns would_overflow) × SameView 1000 database done.1.db
unfolding view Dictionary.get has_lapsed decimal
incr_refuses_example =
    incr_refuses decimal decimal_laws (request ("top" ∷ [])) store "9007199254740991"
      (pos 9007199254740991) refl refl (pos 1) (omega arith)

incrby_example :
    let done = incrby decimal (negsuc 0) (request ("count" ∷ "50" ∷ [])) store in
    (done.0 ≡ returns (number (integer (negsuc 8))))
    × Leaves 1000 database done.1.db "count" (some (undated (text_value "-9")))
unfolding view Dictionary.get has_lapsed decimal ◌+ℤ◌ ◌*ℤ◌
incrby_example =
    incrby_lem decimal decimal_laws (request ("count" ∷ "50" ∷ [])) store "41" (pos 41) refl refl
      (negsuc 0) (pos 50) refl (omega arith) (omega arith) (omega arith)

decrby_refuses_example :
    (incrby decimal (negsuc 0) (request ("top" ∷ "1" ∷ [])) store).0 ≡ returns would_overflow
unfolding view Dictionary.get has_lapsed decimal ◌+ℤ◌
decrby_refuses_example =
    decrby_refuses decimal decimal_laws (request ("top" ∷ "1" ∷ [])) store "9007199254740991"
      (pos 9007199254740991) refl refl refl refl refl
