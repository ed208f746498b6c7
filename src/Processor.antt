-- ===== src/Processor.antt =====
-- src/resp/processor/command-wrapper.ts: what stands between a request and its command.
-- `C` is the type of the command objects; `info` gives the fields of one, and `run` its `execSync`.
pub mod Laws
use package.text.Mathlib.Text.{find?}
use Prim.Native.String
use unit_redis_ness.Prelude.{
  ℕ, String, Bool, true, false, not, ◌&&◌, ◌||◌, Option, none, some, List, [], ◌∷◌, length, get_or,
  ltb, if◌then◌else◌,
}
use unit_redis_ness.Number.{Number, Js}
use unit_redis_ness.Outcome.{Outcome, returns}
use unit_redis_ness.DatabaseValue.{DataType, wrong_type}
use unit_redis_ness.Database
use unit_redis_ness.Token.{Token, error, text}
use unit_redis_ness.Session.{
  Session, Call, StateValue, flag, in_transaction, set_error, queue_request, get_value,
}
use unit_redis_ness.World.{World, Action, get_database, put_database}

-- `none` of `max_params` is -1, no limit; `none` of `data_type` is DataType.NONE.
pub record Info : Type 0 where
  pub min_params : ℕ
  pub max_params : Option ℕ
  pub data_type : Option DataType
  pub pub_sub_allowed : Bool

abbrev above : ℕ → Option ℕ → Bool
above n none = false
above n (some m) = ltb m n

-- `request.getLength() < minParams || maxParams > -1 && request.getLength() > maxParams`
unfoldable pub wrong_count : Info → Call → Bool
wrong_count i call =
    ltb (length call.params) i.min_params || above (length call.params) i.max_params

abbrev pub count_error : Call → Token
count_error call =
    error (String.◌++◌ "ERR wrong number of arguments for '" (String.◌++◌ call.command "' command"))

is_true : Option StateValue → Bool
is_true (some (flag b)) = b
is_true _ = false

-- `"exec discard multi".indexOf(command.toLowerCase()) === -1`
is_absent : Option ℕ → Bool
is_absent none = true
is_absent (some _) = false

unfoldable pub is_queueable : Js → Call → Bool
unfolding is_absent
is_queueable js call = is_absent (find? "exec discard multi" (js.to_lower_case call.command))

module _ {C : Type 0} where
  unfoldable pub is_subscribed : Session C → Bool
  unfolding is_true get_value
  is_subscribed s = is_true (get_value s "subscribed")

  -- `if (inTransaction()) setError()`
  unfoldable pub fail_transaction : World C → World C
  unfolding in_transaction set_error
  fail_transaction w =
      if in_transaction w.session then record w { session = set_error w.session } else w

  -- `db.isType(request.getParam(0), dataType)`; it may remove a lapsed entry.
  unfoldable pub check_type : ℕ → Call → Option DataType → World C → Bool × World C
  unfolding get_database put_database
  check_type now call none w = (true, w)
  check_type now call (some type) w =
      let id = w.session.current_db in
      let (fits, db) = Database.is_type now (get_database id w) (get_or call.params 0 "") type in
      (fits, put_database id db w)

module _ {C : Type 0} (js : Js) (info : C → Info) (run : C → Action C) where
  -- The `default` branch. DataType.NONE is a text that is not empty, so the command is always run
  -- with the database.
  unfoldable pub run_or_queue : C → ℕ → Call → World C → Outcome Token × World C
  unfolding is_queueable in_transaction queue_request
  run_or_queue c now call w =
      if in_transaction w.session && is_queueable js call
      then (returns (text "QUEUED"), record w { session = queue_request (c, call) w.session })
      else run c now call w.session.current_db w

  unfoldable pub checked : C → ℕ → Call → Bool → World C → Outcome Token × World C
  unfolding fail_transaction is_subscribed run_or_queue
  checked c now call fits w =
      if not fits
      then (returns (error wrong_type), fail_transaction w)
      else if is_subscribed w.session && not (info c).pub_sub_allowed
      then (
        returns (error "ERR only (P)SUBSCRIBE / (P)UNSUBSCRIBE / QUIT allowed in this context"),
        w,
      )
      else run_or_queue c now call w

  unfoldable pub exec_sync : C → ℕ → Call → World C → Outcome Token × World C
  unfolding wrong_count fail_transaction check_type checked
  exec_sync c now call w =
      if wrong_count (info c) call
      then (returns (count_error call), fail_transaction w)
      else (let (fits, w') = check_type now call (info c).data_type w in checked c now call fits w')
