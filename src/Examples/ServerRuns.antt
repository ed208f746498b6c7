-- ===== src/Examples/ServerRuns.antt =====
-- The theorems on databases, the wrapper and transactions, in a server with one command, RPUSH.
use unit_redis_ness.Prelude.{
  ℕ, ◌≡◌, ◌≢◌, refl, false, none, some, List, [], ◌∷◌, pos, arith, if◌then◌else◌,
}
use unit_redis_ness.Number.{integer, same}
use unit_redis_ness.Outcome.{returns}
use unit_redis_ness.Dictionary
use unit_redis_ness.DatabaseValue.{list}
use unit_redis_ness.Database
use unit_redis_ness.Database.{Database, has_lapsed}
use unit_redis_ness.Database.Laws.{view, Leaves}
use unit_redis_ness.Token.{Tokens, array, count, error, response_ok}
use unit_redis_ness.Session.{Session, Call, in_transaction}
use unit_redis_ness.World.{World, Action, get_database, on_database}
use unit_redis_ness.Processor.{Info, wrong_count, is_queueable, is_subscribed, exec_sync}
use unit_redis_ness.Transaction.{multi, discard, exec}
use unit_redis_ness.Transaction.Laws.{
  exec-multi, discard-multi, exec_aborted, IsAccepted, Runs, send_all, closed,
}
use unit_redis_ness.ListCommands.Push.{rpush}
use unit_redis_ness.DatabaseCommands.{move, flushdb}
use unit_redis_ness.DatabaseCommands.Flush.{flushdb_lem}
use unit_redis_ness.DatabaseCommands.Move.{move_lem}
use unit_redis_ness.Examples.Decimal.{decimal}
use unit_redis_ness.Examples.Fixture.{undated, database}

data OneCommand : Type 0 where
  push_command : OneCommand

abbrev info : OneCommand → Info
info push_command = record {
  min_params = 2;
  max_params = none;
  data_type = none;
  pub_sub_allowed = false;
}

abbrev run : OneCommand → Action OneCommand
run push_command = on_database rpush

abbrev session : Session OneCommand
session = record {
  commands = none;
  errored = false;
  state = Dictionary.empty;
  name = "";
  current_db = integer (pos 0);
}

abbrev world : World OneCommand
world = record {
  databases = λ n. if same n (integer (pos 0)) then some database else none;
  session = session;
  emitted = [];
}

abbrev push_x : Call
push_x = record { command = "rpush"; params = "one" ∷ "y" ∷ [] }

abbrev push_nothing : Call
push_nothing = record { command = "rpush"; params = "one" ∷ [] }

accepted : IsAccepted decimal info run 1000 push_command push_x
unfolding decimal wrong_count is_queueable
accepted = record { count = refl; untyped = refl; queueable = refl }

abbrev queue : List (OneCommand × Call)
queue = (push_command, push_x) ∷ (push_command, push_x) ∷ []

exec-multi_example :
    (ts : Tokens) × (w' : World OneCommand) × (exec run 1000
        (integer (pos 0))
        (send_all decimal info run 1000 queue (multi world).1)
      ≡ (returns (array ts), w'))
    × Runs run 1000 (integer (pos 0)) queue (closed world) ts w'
unfolding in_transaction is_subscribed Dictionary.get
exec-multi_example =
    exec-multi decimal info run 1000 queue (integer (pos 0)) world refl refl
      (accepted, (accepted, tt))

discard-multi_example :
    discard (send_all decimal info run 1000 queue (multi world).1)
    ≡ (returns response_ok, closed world)
unfolding in_transaction is_subscribed Dictionary.get
discard-multi_example =
    discard-multi decimal info run 1000 queue world refl refl (accepted, (accepted, tt))

exec_aborted_example :
    exec run 1000 (integer (pos 0)) (
      send_all decimal info run 1000 []
        (exec_sync decimal info run push_command 1000 push_nothing
          (send_all decimal info run 1000 queue (multi world).1)).1)
    ≡ (returns (error "EXECABORT Transaction discarded because of previous errors."), closed world)
unfolding in_transaction is_subscribed Dictionary.get wrong_count
exec_aborted_example =
    exec_aborted decimal info run 1000 queue [] push_command push_nothing (integer (pos 0)) world
      refl refl (accepted, (accepted, tt)) tt refl

flushdb_example :
    ((flushdb (integer (pos 0)) world).0 ≡ returns response_ok)
    × (get_database (integer (pos 0)) (flushdb (integer (pos 0)) world).1 ≡ Database.empty)
flushdb_example = flushdb_lem (integer (pos 0)) (integer (pos 0)) world

abbrev move_one : Call
move_one = record { command = "move"; params = "one" ∷ "3" ∷ [] }

move_example :
    let (o, w') = move decimal 1000 move_one (integer (pos 0)) world in
    (o ≡ returns (count 1))
    × Leaves 1000
        (get_database (integer (pos 0)) world)
        (get_database (integer (pos 0)) w')
        "one"
        none
    × Leaves 1000
        (get_database (integer (pos 3)) world)
        (get_database (integer (pos 3)) w')
        "one"
        (some (undated (list ("x" ∷ []))))
    × ((k : ℕ)
        → k ≢ 0
        → k ≢ 3
        → get_database (integer (pos k)) w' ≡ get_database (integer (pos k)) world)
unfolding view Dictionary.get has_lapsed decimal get_database
move_example =
    move_lem decimal move_one 1000 0 3 (undated (list ("x" ∷ []))) world refl (omega arith)
      (omega arith) refl refl refl
