-- ===== src/ListCommands/Range.antt =====
-- src/resp/command/list: lrange-command.ts and ltrim-command.ts.
pub mod Laws
pub mod Reading
pub mod Soundness
use unit_redis_ness.Prelude.{
  ℕ, String, ℤ, pos, negsuc, Option, none, some, List, [], length, ltb_ℤ, ◌+ℤ◌, if◌then◌else◌,
}
use unit_redis_ness.Number.{Number, Js, to_integer?}
use unit_redis_ness.DatabaseValue.{DatabaseValue, list, get_list}
use unit_redis_ness.Token.{Token, array, texts, response_ok}
use unit_redis_ness.Command.{Request, get_param, Store, Command, ◌>>=◌, ◌>>◌, pure, lift, get}
use unit_redis_ness.ListCommands.Push.{or_new_list}
use unit_redis_ness.ListCommands.Save.{save}
use unit_redis_ness.ListCommands.Slice.{slice}
use unit_redis_ness.ListCommands.Index.{not_an_integer}

-- `if (index < 0) { index = length + index; if (index < 0) index = 0; }`
unfoldable pub clamped : ℕ → ℤ → ℤ
unfolding ◌+ℤ◌
clamped len z =
    if ltb_ℤ z (pos 0) then (if ltb_ℤ (pos len +ℤ z) (pos 0) then pos 0 else pos len +ℤ z) else z

-- `if (stopIndex < 0) stopIndex = length + stopIndex;`
unfoldable pub from_end : ℕ → ℤ → ℤ
unfolding ◌+ℤ◌
from_end len z = if ltb_ℤ z (pos 0) then pos len +ℤ z else z

-- Two parameters that are both integers.
unfoldable pub both : Option ℤ → Option ℤ → Option (ℤ × ℤ)
both (some a) (some b) = some (a, b)
both none b = none
both (some a) none = none

unfoldable pub range_of : ℤ × ℤ → List String → List String
unfolding clamped slice
range_of (start, stop) xs = slice (clamped (length xs) start) (clamped (length xs) stop +ℤ pos 1) xs

unfoldable pub trim_of : ℤ × ℤ → List String → List String
unfolding clamped from_end slice
trim_of (start, stop) xs = slice (clamped (length xs) start) (from_end (length xs) stop +ℤ pos 1) xs

ltrim_of : Request → ℤ × ℤ → Option DatabaseValue → Command Token
unfolding trim_of
ltrim_of r bounds none = pure response_ok
ltrim_of r bounds (some v) = do
  xs ← lift (get_list v)
  save (get_param r 0) v (trim_of bounds xs)
  pure response_ok

ltrim_within : Request → Option (ℤ × ℤ) → Command Token
unfolding ltrim_of
ltrim_within r none = pure not_an_integer
ltrim_within r (some bounds) = do found ← get r (get_param r 0); ltrim_of r bounds found

module _ (js : Js) where
  bounds_of : Request → Option (ℤ × ℤ)
  unfolding both
  bounds_of r =
      both (to_integer? (js.number (get_param r 1))) (to_integer? (js.number (get_param r 2)))

  -- The list is taken as a list before the indices are read: `...list.getList()` in a log line.
  unfoldable pub lrange : Request → Command Token
  unfolding bounds_of range_of
  lrange r = do
    found ← get r (get_param r 0)
    xs ← lift (get_list (or_new_list found))
    elim (bounds_of r) [
      | none ↦ pure not_an_integer
      | some bounds ↦ pure (array (texts (range_of bounds xs)))
    ]

  -- Here the indices are read before the key.
  unfoldable pub ltrim : Request → Command Token
  unfolding bounds_of ltrim_within
  ltrim r = ltrim_within r (bounds_of r)
