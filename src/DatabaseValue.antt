-- ===== src/DatabaseValue.antt =====
-- src/resp/data/data-type.ts and src/resp/data/database-value.ts: what a key of the database holds.
-- The payload is a value: a command that changes an array or a set in place is modelled by the new
-- payload, and no payload is shared by two keys.
use unit_redis_ness.Prelude.{
  ℕ, ◌/◌, String, Bool, false, not, Option, none, some, List, ℤ, pos, negsuc, abs_ℕ, eqb_ℤ, ltb_ℤ,
  ◌-ℤ◌, if◌then◌else◌,
}
use unit_redis_ness.Number.{Number}
use unit_redis_ness.Dictionary.{Dictionary}
use unit_redis_ness.Outcome.{Outcome, returns, throws}

pub data DataType : Type 0 where
  hash list none_type set string zset : DataType

-- sorted-set.ts: a node is named by its place in `nodes`, the nodes made so far in the order of
-- their making. Every set of the program is made with the default options, so `_unique` is false.
pub record Level : Type 0 where
  pub next : Option ℕ
  pub span : ℤ

pub record Node : Type 0 where
  pub level : ℕ
  pub key : Option String
  pub value : Number
  pub next : List Level
  pub prev : Option ℕ

pub record SortedSet : Type 0 where
  pub length : ℕ
  pub nodes : List Node
  pub head : ℕ
  pub tail : Option ℕ
  pub level : ℕ
  pub scores : Dictionary Number

-- The value of each data type: `private value: any`, together with `private type: DataType`.
pub data Payload : Type 0 where
  string : String → Payload
  list : List String → Payload
  set : List String → Payload
  hash : Dictionary String → Payload
  zset : SortedSet → Payload

-- `expired_at` is in milliseconds; `none` stands for `undefined`.
pub record DatabaseValue : Type 0 where
  pub value : Payload
  pub expired_at : Option ℤ

abbrev pub of_payload : Payload → DatabaseValue
of_payload p = record { value = p; expired_at = none }

payload_type : Payload → DataType
payload_type (string s) = string
payload_type (list l) = list
payload_type (set m) = set
payload_type (hash h) = hash
payload_type (zset z) = zset

unfoldable pub get_type : DatabaseValue → DataType
unfolding payload_type
get_type v = payload_type v.value

abbrev pub wrong_type : String
wrong_type = "WRONGTYPE Operation against a key holding the wrong kind of value"

-- getString, getList, getSet, getHash, getSortedSet
unfoldable pub get_string : DatabaseValue → Outcome String
get_string v = elim v.value [ string s ↦ returns s | _ ↦ throws wrong_type ]

unfoldable pub get_list : DatabaseValue → Outcome (List String)
get_list v = elim v.value [ list l ↦ returns l | _ ↦ throws wrong_type ]

unfoldable pub get_set : DatabaseValue → Outcome (List String)
get_set v = elim v.value [ set m ↦ returns m | _ ↦ throws wrong_type ]

unfoldable pub get_hash : DatabaseValue → Outcome (Dictionary String)
get_hash v = elim v.value [ hash h ↦ returns h | _ ↦ throws wrong_type ]

unfoldable pub get_sorted_set : DatabaseValue → Outcome SortedSet
get_sorted_set v = elim v.value [ zset z ↦ returns z | _ ↦ throws wrong_type ]

-- A number that is 0, NaN or `undefined` is falsy.
abbrev pub is_set : Option ℤ → Bool
is_set none = false
is_set (some t) = not (eqb_ℤ t (pos 0))

unfoldable pub get_expired_at : DatabaseValue → ℤ
get_expired_at v = elim v.expired_at [
  | none ↦ negsuc 0
  | some t ↦ if is_set (some t) then t else negsuc 0
]

unfoldable pub is_expired : DatabaseValue → ℕ → Bool
is_expired v now = elim v.expired_at [ none ↦ false | some t ↦ ltb_ℤ t (pos now) ]

-- Math.abs(expiredAt ? now - expiredAt : 0)
unfoldable pub time_to_live : ℤ → ℕ → ℕ
unfolding ◌-ℤ◌
time_to_live t now = if is_set (some t) then abs_ℕ (pos now -ℤ t) else 0

unfoldable pub time_to_live_millis : DatabaseValue → ℕ → ℤ
unfolding time_to_live
time_to_live_millis v now = elim v.expired_at [
  | none ↦ negsuc 0
  | some t ↦ pos (time_to_live t now)
]

unfoldable pub time_to_live_seconds : DatabaseValue → ℕ → ℤ
unfolding time_to_live
time_to_live_seconds v now = elim v.expired_at [
  | none ↦ negsuc 0
  | some t ↦ pos (time_to_live t now / 1000)
]

unfoldable pub set_expired_at : DatabaseValue → ℤ → DatabaseValue
set_expired_at v t = record v { expired_at = some t }

unfoldable pub no_expire : DatabaseValue → DatabaseValue
no_expire v = record v { expired_at = none }
