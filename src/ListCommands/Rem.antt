-- ===== src/ListCommands/Rem.antt =====
-- src/resp/command/list/lrem-command.ts.
pub mod Laws
pub mod Soundness
use unit_redis_ness.Prelude.{
  ℕ, zero, suc, ◌+◌, String, ℤ, pos, negsuc, abs_ℕ, Bool, true, false, not, ◌&&◌, ◌||◌, Option,
  none, some, List, [], ◌∷◌, ◌++◌, length, take, drop, eqb, eqb_ℤ, ltb_ℤ, ◌+ℤ◌, ◌==◌, if◌then◌else◌,
}
use unit_redis_ness.Number.{Number, Js, integer, to_integer?, same}
use unit_redis_ness.DatabaseValue.{DatabaseValue, get_list}
use unit_redis_ness.Token.{Token, count}
use unit_redis_ness.Command.{Request, get_param, Store, Command, ◌>>=◌, ◌>>◌, pure, lift, get}
use unit_redis_ness.ListCommands.Save.{save}
use unit_redis_ness.ListCommands.Index.{not_an_integer}

-- The indices of the elements that equal the value; the list starts at index `i`.
unfoldable pub matching : ℕ → String → List String → List ℕ
matching i v [] = []
matching i v (x ∷ xs) = let rest = matching (suc i) v xs in if x == v then i ∷ rest else rest

-- The `switch` on `count`: for a negative count the index of the element is compared with the
-- number of matches.
unfoldable pub is_removed : ℤ → ℕ → ℕ → Bool
unfolding ◌+ℤ◌
is_removed n matches index =
    if ltb_ℤ (pos 0) n
    then true
    else if ltb_ℤ n (pos 0)
    then not (ltb_ℤ (pos index) (pos matches +ℤ n))
    else true

-- The loop over the matches, with `taken` of them to be removed already; it ends with the
-- |count|-th.
unfoldable pub to_remove : ℤ → ℕ → ℕ → List ℕ → List ℕ
unfolding is_removed
to_remove n matches taken [] = []
to_remove n matches taken (i ∷ is) =
    let more = to_remove n matches (suc taken) is in
    let others = to_remove n matches taken is in
    let first = i ∷ (if not (eqb_ℤ n (pos 0)) && eqb (abs_ℕ n) (suc taken) then [] else more) in
    if is_removed n matches i then first else others

-- `splice(i, 1)`
unfoldable pub delete_at : ℕ → List String → List String
delete_at i [] = []
delete_at zero (x ∷ xs) = xs
delete_at (suc i) (x ∷ xs) = x ∷ delete_at i xs

-- The indices are popped from the end.
unfoldable pub delete_each : List ℕ → List String → List String
unfolding delete_at
delete_each [] xs = xs
delete_each (i ∷ is) xs = delete_at i (delete_each is xs)

unfoldable pub removed : ℤ → String → List String → List ℕ
unfolding to_remove matching
removed n v xs = to_remove n (length (matching 0 v xs)) 0 (matching 0 v xs)

lrem_of : Request → ℤ → Option DatabaseValue → Command Token
unfolding removed delete_each
lrem_of r n none = pure (count 0)
lrem_of r n (some v) = do
  xs ← lift (get_list v)
  let out = removed n (get_param r 2) xs
  save (get_param r 0) v (delete_each out xs)
  pure (count (length out))

module _ (js : Js) where
  -- `isNaN(count) || count !== parseInt(String(count), 10)`
  count_of : Number → Option ℤ
  count_of n = if same n (js.parse_int (js.print n)) then to_integer? n else none

  unfoldable pub lrem : Request → Command Token
  unfolding count_of lrem_of
  lrem r = do
    found ← get r (get_param r 0)
    elim (count_of (js.number (get_param r 1))) [
      | none ↦ pure not_an_integer
      | some n ↦ lrem_of r n found
    ]
