-- ===== src/Examples/SuiteRuns.antt =====
-- The theorems on the server as a whole, from its start.
use unit_redis_ness.Prelude.{◌≡◌, refl, String, List, [], ◌∷◌}
use unit_redis_ness.Outcome.{returns, throws}
use unit_redis_ness.Dictionary
use unit_redis_ness.Token.{error}
use unit_redis_ness.Session.{new_session, in_transaction, start_transaction}
use unit_redis_ness.World.{World, Action}
use unit_redis_ness.Processor.{is_subscribed}
use unit_redis_ness.Transaction.Laws.{closed}
use unit_redis_ness.Suite.{CommandObject, PlainCommand}
use unit_redis_ness.Suite.Run.{receive, run_plain}
use unit_redis_ness.Suite.Reading.{run_plain-SameView}
use unit_redis_ness.Database.Laws.{SameView}
use unit_redis_ness.Examples.Fixture.{database, store, request}
use unit_redis_ness.Suite.Flat.{KeepsFlat}
use unit_redis_ness.Suite.Reach.{started, Reaches, start, after}
use unit_redis_ness.Suite.Queue.{receive_enough}
use unit_redis_ness.Suite.Unknown.{unknown_aborts}
use unit_redis_ness.Examples.Decimal.{decimal}

-- Every other command throws.
abbrev nothing_else : String → Action CommandObject
nothing_else name now call id w = (throws "no such command", w)

keeps_flat : (name : String) → KeepsFlat (nothing_else name)
keeps_flat name now call id w h = h

abbrev add_members : List String
add_members = "sadd" ∷ "tags" ∷ "red" ∷ "red" ∷ []

abbrev with_tags : World CommandObject
with_tags = (receive decimal nothing_else 1 1000 add_members started).1

has_tags : Reaches decimal nothing_else 1 with_tags
has_tags = after 1000 add_members started start

abbrev with_multi : World CommandObject
with_multi = (receive decimal nothing_else 1 1001 ("multi" ∷ []) with_tags).1

abbrev with_queue : World CommandObject
with_queue = (receive decimal nothing_else 1 1002 add_members with_multi).1

has_queue : Reaches decimal nothing_else 1 with_queue
has_queue = after 1002 add_members with_multi (after 1001 ("multi" ∷ []) with_tags has_tags)

receive_enough_example :
    receive decimal nothing_else 8 1003 ("exec" ∷ []) with_queue
    ≡ receive decimal nothing_else 1 1003 ("exec" ∷ []) with_queue
receive_enough_example =
    receive_enough decimal nothing_else keeps_flat 1 7 1003 ("exec" ∷ []) has_queue

abbrev multi_sent : World CommandObject
multi_sent = record started { session = start_transaction started.session }

unknown_aborts_example :
    receive decimal nothing_else 1 1001
      ("exec" ∷ [])
      (receive decimal nothing_else 1 1000 ("nosuch" ∷ "x" ∷ []) multi_sent).1
    ≡ (
      returns (error "EXECABORT Transaction discarded because of previous errors."),
      closed multi_sent,
    )
unfolding decimal Dictionary.get in_transaction is_subscribed start_transaction new_session
unknown_aborts_example =
    unknown_aborts decimal nothing_else 0 1000 1001 refl "nosuch" ("x" ∷ []) multi_sent refl refl
      refl

-- MGET of a key that has lapsed, and of one that has not.
run_plain-SameView_example :
    SameView 1000 database
      (run_plain decimal PlainCommand.mget_command (request ("stale" ∷ "count" ∷ [])) store).1.db
run_plain-SameView_example =
    run_plain-SameView decimal PlainCommand.mget_command (request ("stale" ∷ "count" ∷ [])) store
      refl
