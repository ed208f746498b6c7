-- ===== src/Processor/Laws.antt =====
-- What the wrapper lets through, inside and outside of a transaction.
use unit_redis_ness.Prelude.{ℕ, ◌≡◌, refl, true, none, arith, if◌then◌else◌}
use unit_redis_ness.Number.{Js}
use unit_redis_ness.Outcome.{returns}
use unit_redis_ness.Session.{Call, in_transaction, set_error}
use unit_redis_ness.World.{World, Action}
use unit_redis_ness.Processor.{Info, wrong_count, count_error, is_queueable, exec_sync}

module _ {C : Type 0} (js : Js) (info : C → Info) (run : C → Action C) (c : C) (now : ℕ)
    (call : Call) (w : World C) where
  -- A request with the wrong number of parameters does not reach its command: the reply is the
  -- error, and all that changes is that an open transaction is marked as failed.
  pub exec_sync_count :
      wrong_count (info c) call ≡ true
      → exec_sync js info run c now call w ≡ (
        returns (count_error call),
        (if in_transaction w.session
            then record w { session = record w.session { errored = true } }
            else w),
      )
  unfolding exec_sync set_error
  exec_sync_count wrong = rw wrong refl

  -- In a transaction a command other than EXEC, DISCARD and MULTI, of no declared type, touches
  -- no database, emits no event and leaves the transaction open, whatever its parameters.
  pub exec_sync_deferred :
      in_transaction w.session ≡ true
      → is_queueable js call ≡ true
      → (info c).data_type ≡ none
      → ((exec_sync js info run c now call w).1.databases ≡ w.databases)
        × ((exec_sync js info run c now call w).1.emitted ≡ w.emitted)
        × (in_transaction (exec_sync js info run c now call w).1.session ≡ true)
  unfolding exec_sync
  exec_sync_deferred opened queued untyped = ground arith
