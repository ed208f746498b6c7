-- ===== src/Transaction.antt =====
-- src/resp/command: multi-command.ts, discard-command.ts and exec-command.ts.
pub mod Laws
use unit_redis_ness.Prelude.{
  ℕ, String, Bool, true, false, Option, none, some, List, [], ◌∷◌, if◌then◌else◌,
}
use unit_redis_ness.Number.{Number}
use unit_redis_ness.Outcome.{Outcome, returns, throws}
use unit_redis_ness.Token.{Token, Tokens, token, end, error, array, response_ok}
use unit_redis_ness.Session.{
  Session, Call, in_transaction, start_transaction, abort_transaction, get_transaction,
}
use unit_redis_ness.World.{World, Action}

-- The reply of one queued command. A command that throws pushes no token.
abbrev pub push_token : Outcome Token → Tokens → Tokens
push_token (returns t) ts = token t ts
push_token (throws m) ts = ts

module _ {C : Type 0} where
  unfoldable pub multi : World C → Outcome Token × World C
  unfolding in_transaction start_transaction
  multi w =
      if in_transaction w.session
      then (returns (error "ERR MULTI calls can not be nested"), w)
      else (returns response_ok, record w { session = start_transaction w.session })

  unfoldable pub discard : World C → Outcome Token × World C
  unfolding in_transaction abort_transaction
  discard w =
      if in_transaction w.session
      then (returns response_ok, record w { session = abort_transaction w.session })
      else (returns (error "ERR DISCARD without MULTI"), w)

  module _ (run : C → Action C) where
    -- `commands.map(async ...)`: each command runs to its end in order, on the database that EXEC
    -- was given; the tokens are pushed in that order before the reply is sent.
    unfoldable pub run_all : ℕ → Number → List (C × Call) → World C → Tokens × World C
    run_all now id [] w = (end, w)
    run_all now id ((c, call) ∷ queue) w =
        let (o, w') = run c now call id w in
        let (ts, w'') = run_all now id queue w' in (push_token o ts, w'')

    exec_queue : ℕ → Number → Option (List (C × Call)) → World C → Outcome Token × World C
    unfolding run_all
    exec_queue now id none w = (returns (error "ERR EXEC without MULTI"), w)
    exec_queue now id (some queue) w =
        let (ts, w') = run_all now id queue w in (returns (array ts), w')

    unfoldable pub exec : ℕ → Number → World C → Outcome Token × World C
    unfolding in_transaction abort_transaction get_transaction exec_queue
    exec now id w =
        if in_transaction w.session
        then (if w.session.errored
            then (
              returns (error "EXECABORT Transaction discarded because of previous errors."),
              record w { session = abort_transaction w.session },
            )
            else exec_queue now id (get_transaction w.session).0
                (record w { session = (get_transaction w.session).1 }))
        else (returns (error "ERR EXEC without MULTI"), w)
