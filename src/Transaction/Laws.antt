-- ===== src/Transaction/Laws.antt =====
-- MULTI, the commands that are sent, and EXEC or DISCARD, as one exchange with a client.
use unit_redis_ness.Prelude.{
  ℕ, String, ◌≡◌, refl, ◌∙◌, Bool, true, false, none, some, List, [], ◌∷◌, ◌++◌, arith, append-nil,
  append_assoc,
}
use unit_redis_ness.Number.{Number, Js}
use unit_redis_ness.Outcome.{Outcome, returns, throws}
use unit_redis_ness.Token.{Token, Tokens, token, end, array, error, response_ok, text}
use unit_redis_ness.Session.{Call, in_transaction}
use unit_redis_ness.World.{World, Action}
use unit_redis_ness.Processor.{Info, wrong_count, is_queueable, is_subscribed, exec_sync}
use unit_redis_ness.Transaction.{multi, discard, exec, run_all, push_token}

-- The world with an open transaction that holds the queue, marked as failed or not, and with none.
abbrev opened : {C : Type 0} → Bool → World C → List (C × Call) → World C
opened e w q = record w { session = record w.session { commands = some q; errored = e } }

abbrev pub closed : {C : Type 0} → World C → World C
closed w = record w { session = record w.session { commands = none; errored = false } }

multi-opened :
    {C : Type 0} (w : World C) → in_transaction w.session ≡ false → (multi w).1 ≡ opened false w []
unfolding multi
multi-opened w idle = ground arith

-- One command after another, in the order of the list, each on the world that the one before it
-- left: the tokens are those of the commands that reply, and a command that throws has none.
pub data Runs {C : Type 0} (run : C → Action C) (now : ℕ) (id : Number)
    : List (C × Call) → World C → Tokens → World C → Type 0 where
  nothing : {w : World C} → Runs run now id [] w end w
  replied :
      {c : C} {call : Call} {cs : List (C × Call)} {w w' w'' : World C} {t : Token} {ts : Tokens}
      → run c now call id w ≡ (returns t, w')
      → Runs run now id cs w' ts w''
      → Runs run now id ((c, call) ∷ cs) w (token t ts) w''
  threw :
      {c : C} {call : Call} {cs : List (C × Call)} {w w' w'' : World C} {m : String} {ts : Tokens}
      → run c now call id w ≡ (throws m, w')
      → Runs run now id cs w' ts w''
      → Runs run now id ((c, call) ∷ cs) w ts w''

module _ {C : Type 0} (run : C → Action C) (now : ℕ) (id : Number) where
  Runs-push_token :
      (o : Outcome Token) {c : C} {call : Call} {cs : List (C × Call)} {w w' w'' : World C}
      {ts : Tokens}
      → run c now call id w ≡ (o, w')
      → Runs run now id cs w' ts w''
      → Runs run now id ((c, call) ∷ cs) w (push_token o ts) w''
  Runs-push_token (returns t) e rs = replied e rs
  Runs-push_token (throws m) e rs = threw e rs

  -- The loop of EXEC makes such a run.
  run_all-Runs :
      (cs : List (C × Call)) (w : World C)
      → Runs run now id cs w (run_all run now id cs w).0 (run_all run now id cs w).1
  unfolding run_all
  run_all-Runs [] w = nothing
  run_all-Runs ((c, call) ∷ cs) w =
      Runs-push_token (run c now call id w).0 refl (run_all-Runs cs (run c now call id w).1)

module _ {C : Type 0} (js : Js) (info : C → Info) (run : C → Action C) (now : ℕ) where
  -- The wrapper's checks pass for a command and its parameters.
  pub record IsAccepted (c : C) (call : Call) : Type 0 where
    pub count : wrong_count (info c) call ≡ false
    pub untyped : (info c).data_type ≡ none
    pub queueable : is_queueable js call ≡ true

  abbrev pub AllAccepted : List (C × Call) → Type 0
  AllAccepted [] = Unit
  AllAccepted ((c, call) ∷ cs) = IsAccepted c call × AllAccepted cs

  -- The client sends the commands one after another.
  pub send_all : List (C × Call) → World C → World C
  send_all [] w = w
  send_all ((c, call) ∷ cs) w = send_all cs (exec_sync js info run c now call w).1

  exec_sync-opened :
      (c : C) (call : Call) (e : Bool) (w : World C) (q : List (C × Call))
      → IsAccepted c call
      → is_subscribed w.session ≡ false
      → exec_sync js info run c now call (opened e w q)
        ≡ (returns (text "QUEUED"), opened e w (q ++ (c, call) ∷ []))
  unfolding exec_sync is_subscribed
  exec_sync-opened c call e w q a free = rw (a.count, a.untyped, a.queueable, free)

  send_all-opened :
      (cs q : List (C × Call)) (e : Bool) (w : World C)
      → AllAccepted cs
      → is_subscribed w.session ≡ false
      → send_all cs (opened e w q) ≡ opened e w (q ++ cs)
  unfolding send_all
  send_all-opened [] q e w a free = simp append-nil
  send_all-opened ((c, call) ∷ cs) q e w a free =
      rw (exec_sync-opened c call e w q a.0 free)
        (send_all-opened cs (q ++ (c, call) ∷ []) e w a.1 free ∙ simp append_assoc)

  -- For a session that is neither in a transaction nor subscribed, and requests that all pass
  -- the wrapper's checks: after MULTI and these requests, EXEC runs them in the order in which
  -- they were sent, on the databases as they are then and each in the world that the one before
  -- it has left, replies with the array of their replies in that order, in which a command that
  -- throws has none, and leaves the world of the last one, in which no transaction was open when
  -- the first one started.
  pub exec-multi :
      (cs : List (C × Call)) (id : Number) (w : World C)
      → in_transaction w.session ≡ false
      → is_subscribed w.session ≡ false
      → AllAccepted cs
      → (ts : Tokens) × (w' : World C) × (exec run now id (send_all cs (multi w).1)
          ≡ (returns (array ts), w'))
        × Runs run now id cs (closed w) ts w'
  unfolding exec
  exec-multi cs id w idle free a = (
    (run_all run now id cs (closed w)).0,
    (run_all run now id cs (closed w)).1,
    rw (multi-opened w idle, send_all-opened cs [] false w a free),
    run_all-Runs run now id cs (closed w),
  )

  -- For a session that is neither in a transaction nor subscribed, and requests that all pass
  -- the wrapper's checks: DISCARD after MULTI and these requests replies OK and leaves the world
  -- as it was, with no transaction open.
  pub discard-multi :
      (cs : List (C × Call)) (w : World C)
      → in_transaction w.session ≡ false
      → is_subscribed w.session ≡ false
      → AllAccepted cs
      → discard (send_all cs (multi w).1) ≡ (returns response_ok, closed w)
  unfolding discard
  discard-multi cs w idle free a = rw (multi-opened w idle, send_all-opened cs [] false w a free)

  -- For a session that is neither in a transaction nor subscribed: a request with the wrong
  -- number of parameters, among requests that pass the wrapper's checks, between MULTI and EXEC.
  -- EXEC runs nothing, replies with EXECABORT and closes the transaction.
  pub exec_aborted :
      (cs ds : List (C × Call)) (c : C) (call : Call) (id : Number) (w : World C)
      → in_transaction w.session ≡ false
      → is_subscribed w.session ≡ false
      → AllAccepted cs
      → AllAccepted ds
      → wrong_count (info c) call ≡ true
      → exec run now id (send_all ds (exec_sync js info run c now call (send_all cs (multi w).1)).1)
        ≡ (returns (error "EXECABORT Transaction discarded because of previous errors."), closed w)
  unfolding exec exec_sync
  exec_aborted cs ds c call id w idle free a b wrong = rw (
    multi-opened w idle,
    send_all-opened cs [] false w a free,
    wrong,
    send_all-opened ds cs true w b free,
  )
