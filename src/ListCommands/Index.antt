-- ===== src/ListCommands/Index.antt =====
-- src/resp/command/list: lindex-command.ts and lset-command.ts.
pub mod Laws
pub mod Reading
pub mod Soundness
use unit_redis_ness.Prelude.{
  ℕ, suc, ◌+◌, ◌-◌, ◌≤◌, String, ℤ, pos, negsuc, abs_ℕ, Bool, true, false, not, ◌&&◌, ◌||◌, Option,
  none, some, List, [], ◌∷◌, ◌++◌, length, ltb, leb, ltb_ℤ, ◌+ℤ◌, if◌then◌else◌,
}
use unit_redis_ness.Number.{Number, Js, nan, infinite, integer, fraction, is_nan, same, abs_below}
use unit_redis_ness.DatabaseValue.{DatabaseValue, list, get_list}
use unit_redis_ness.Token.{Token, error, text, null_string, response_ok}
use unit_redis_ness.Command.{Request, get_param, Store, Command, ◌>>=◌, ◌>>◌, pure, lift, get, put}
use unit_redis_ness.ListCommands.Slice.{slice, splice_one}
use unit_redis_ness.Database.{put as put_value}
use Prim.Native.String

abbrev pub not_an_integer : Token
not_an_integer = error "ERR value is not an integer or out of range"

-- Number(index) < 0 && Math.abs(Number(index)) < length ? length + 1 + Number(index)
--   : Number(index) + 1
unfoldable pub slice_end : ℕ → ℤ → ℤ
unfolding ◌+ℤ◌
slice_end len z = if ltb_ℤ z (pos 0) && ltb (abs_ℕ z) len then pos (len + 1) +ℤ z else z +ℤ pos 1

-- `list.slice(Number(index), len)`. Nothing lies at an infinite index; a number that passed the
-- test of `lindex` is no fraction.
lindex_slice : Number → List String → List String
unfolding slice_end slice
lindex_slice (integer z) xs = slice z (slice_end (length xs) z) xs
lindex_slice _ xs = []

-- The text of an array: its elements, joined by commas.
abbrev pub joined : List String → String
joined [] = ""
joined (x ∷ []) = x
joined (x ∷ y ∷ xs) = String.◌++◌ x (String.◌++◌ "," (joined (y ∷ xs)))

module _ (js : Js) where
  lindex_of : Request → Option DatabaseValue → Command Token
  unfolding lindex_slice
  lindex_of r none = pure null_string
  lindex_of r (some v) =
      let n = js.number (get_param r 1) in
      if is_nan n || not (same n (js.parse_int (get_param r 1)))
      then pure not_an_integer
      else (do xs ← lift (get_list v); pure (text (joined (lindex_slice n xs))))

  unfoldable pub lindex : Request → Command Token
  unfolding lindex_of
  lindex r = do found ← get r (get_param r 0); lindex_of r found

-- The integer that `splice` takes a number for; the numbers that it is not asked for are 0.
truncated : Number → ℤ
truncated (integer z) = z
truncated (fraction (pos f) _) = pos f
truncated (fraction (negsuc f) _) = negsuc f +ℤ pos 1
truncated _ = pos 0

module _ (js : Js) where
  lset_of : Request → Option DatabaseValue → Command Token
  unfolding truncated splice_one
  lset_of r none = pure (error "ERR no such key")
  lset_of r (some v) =
      let n = js.number (get_param r 1) in
      if is_nan n then pure not_an_integer else (do
        xs ← lift (get_list v)
        if abs_below n (length xs)
            then (do
              put (get_param r 0)
                  (record v { value = list (splice_one (truncated n) (get_param r 2) xs) })
              pure response_ok)
            else pure not_an_integer)

  unfoldable pub lset : Request → Command Token
  unfolding lset_of
  lset r = do found ← get r (get_param r 0); lset_of r found
