-- ===== src/Session.antt =====
-- src/server/session.ts and src/server/default-session.ts: the state of one client.
-- `C` stands for the command objects that a transaction queues. Subscriptions hold listeners of
-- Node's event emitter and are not modelled.
use unit_redis_ness.Prelude.{
  String, Bool, true, false, Option, none, some, List, [], ◌∷◌, ◌++◌, pos,
}
use unit_redis_ness.Number.{Number, integer}
use unit_redis_ness.Dictionary
use unit_redis_ness.Dictionary.{Dictionary, Truthy}

-- default-request.ts: the command as the client wrote it, and its parameters.
pub record Call : Type 0 where
  pub command : String
  pub params : List String

-- What `putValue` stores: a flag or a text.
pub data StateValue : Type 0 where
  flag : Bool → StateValue
  text : String → StateValue

instance abbrev pub state_value_truthy : Truthy StateValue
state_value_truthy = record { truthy = truthy }
  where
    truthy : StateValue → Bool
    truthy (flag b) = b
    truthy (text String.[]) = false
    truthy (text _) = true

pub record Session (C : Type 0) : Type 0 where
  pub commands : Option (List (C × Call))
  pub errored : Bool
  pub state : Dictionary StateValue
  pub name : String
  pub current_db : Number

module _ {C : Type 0} where
  -- The constructor of `DefaultSession` deletes `commands`.
  unfoldable pub new_session : Session C
  new_session = record {
    commands = none;
    errored = false;
    state = Dictionary.empty;
    name = "";
    current_db = integer (pos 0);
  }

  unfoldable pub set_error : Session C → Session C
  set_error s = record s { errored = true }

  unfoldable pub in_transaction : Session C → Bool
  in_transaction s = elim s.commands [ none ↦ false | some _ ↦ true ]

  unfoldable pub queue_request : C × Call → Session C → Session C
  queue_request c s = record s {
    commands = elim s.commands [ none ↦ some (c ∷ []) | some cs ↦ some (cs ++ c ∷ []) ];
  }

  unfoldable pub abort_transaction : Session C → Session C
  abort_transaction s = elim s.commands [
    | none ↦ s
    | some _ ↦ record s { commands = none; errored = false }
  ]

  -- The queue, and the session without it.
  unfoldable pub get_transaction : Session C → Option (List (C × Call)) × Session C
  get_transaction s = (s.commands, record s { commands = none })

  unfoldable pub start_transaction : Session C → Session C
  start_transaction s = elim s.commands [
    | none ↦ record s { commands = some []; errored = false }
    | some _ ↦ record s { commands = none }
  ]

  unfoldable pub get_value : Session C → String → Option StateValue
  get_value s key = Dictionary.get s.state key

  unfoldable pub put_value : String → StateValue → Session C → Session C
  put_value key v s = record s { state = Dictionary.put s.state key v }

  unfoldable pub remove_value : String → Session C → Session C
  remove_value key s = record s { state = (Dictionary.remove s.state key).1 }

  unfoldable pub set_current_db : Number → Session C → Session C
  set_current_db n s = record s { current_db = n }

  unfoldable pub set_name : String → Session C → Session C
  set_name n s = record s { name = n }
