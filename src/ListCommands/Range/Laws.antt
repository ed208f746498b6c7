-- ===== src/ListCommands/Range/Laws.antt =====
-- LRANGE and LTRIM against the positions that they keep.
use unit_redis_ness.Prelude.{
  ℕ, suc, ◌+◌, ◌-◌, ◌≤◌, ◌<◌, ◌≡◌, refl, ap, ◌∙◌, String, ℤ, pos, negsuc, true, Option, some, List,
  [], ◌∷◌, length, take, ltb, ◌+ℤ◌, arith,
}
use unit_redis_ness.Outcome.{returns}
use unit_redis_ness.Number.{Js, integer}
use unit_redis_ness.DatabaseValue.{list, get_list}
use unit_redis_ness.Database.Laws.{view, Leaves, SameView, view-get, get-view}
use unit_redis_ness.Token.{array, texts, response_ok}
use unit_redis_ness.Command.{Request, get_param, Store}
use unit_redis_ness.ListCommands.Push.Laws.{HoldsList, or_new_list-HoldsList}
use unit_redis_ness.ListCommands.Save.{saved, Leaves-save_list}
use unit_redis_ness.ListCommands.Slice.{slice}
use unit_redis_ness.ListCommands.Slice.Window.{window, slice-window, window_lem}
use unit_redis_ness.ListCommands.Range.{lrange, ltrim, clamped, from_end, both, range_of, trim_of}

-- The position that an index names, 0 for one that lies before the list.
unfoldable pub position : ℕ → ℤ → ℕ
position len (pos n) = n
position len (negsuc n) = len - suc n

clamped-position : (len : ℕ) (z : ℤ) → clamped len z ≡ pos (position len z)
unfolding clamped position
clamped-position len (pos n) = ground arith
clamped-position len (negsuc n) = ground arith

pos_suc : (n : ℕ) → pos n +ℤ pos 1 ≡ pos (suc n)
unfolding ◌+ℤ◌
pos_suc n = ground arith

range-window :
    (a b : ℤ) (xs : List String)
    → range_of (a, b) xs ≡ window 0 (position (length xs) a) (position (length xs) b) xs
unfolding range_of
range-window a b xs =
    rw
      (
        clamped-position (length xs) a,
        clamped-position (length xs) b,
        pos_suc (position (length xs) b),
      )
      (slice-window (position (length xs) a) (position (length xs) b) xs)

-- LRANGE with integer indices replies with the elements at the positions from the first index to
-- the second, in order, both counted from the end where negative and taken as 0 where they lie
-- before the list. It changes nothing. An absent key is an empty list.
pub lrange_lem :
    (js : Js) (r : Request) (s : Store) (a b : ℤ) (xs : List String) (t : Option ℤ)
    → js.number (get_param r 1) ≡ integer a
    → js.number (get_param r 2) ≡ integer b
    → HoldsList (view r.now s.db (get_param r 0)) xs t
    → ((lrange js r s).0
        ≡ returns (array (texts (window 0 (position (length xs) a) (position (length xs) b) xs))))
      × SameView r.now s.db (lrange js r s).1.db
unfolding lrange get_list both
lrange_lem js r s a b xs t first last held =
    rw
      (
        get-view r.now s.db (get_param r 0),
        or_new_list-HoldsList (view r.now s.db (get_param r 0)) xs t held,
        first,
        last,
      )
      (
        ap (λ l. returns (array (texts l))) (range-window a b xs),
        view-get r.now s.db (get_param r 0),
      )

-- A last index that lies before the list is taken for position 0: LRANGE from the start then
-- replies with the first element, though no position up to that index is in the list.
pub lrange_before_start :
    (js : Js) (r : Request) (s : Store) (n : ℕ) (x : String) (xs : List String) (t : Option ℤ)
    → js.number (get_param r 1) ≡ integer (pos 0)
    → js.number (get_param r 2) ≡ integer (negsuc n)
    → length (x ∷ xs) ≤ n
    → HoldsList (view r.now s.db (get_param r 0)) (x ∷ xs) t
    → (lrange js r s).0 ≡ returns (array (texts (x ∷ [])))
unfolding position
lrange_before_start js r s n x xs t first last far held =
    let e : position (length (x ∷ xs)) (negsuc n) ≡ 0 = omega arith in
    let f : position (length (x ∷ xs)) (pos 0) ≡ 0 = refl in
    (lrange_lem js r s (pos 0) (negsuc n) (x ∷ xs) t first last held).0
    ∙ rw (e, f, window_lem 0 0 (x ∷ xs))

-- An index into a list: any that is not negative, and a negative one that lies in the list.
abbrev pub WithinEnd : ℕ → ℤ → Type 0
WithinEnd len (pos n) = Unit
WithinEnd len (negsuc n) = n < len

from_end-position : (len : ℕ) (z : ℤ) → WithinEnd len z → from_end len z ≡ pos (position len z)
unfolding from_end position
from_end-position len (pos n) h = ground arith
from_end-position len (negsuc n) h = ground arith

trim-window :
    (a b : ℤ) (xs : List String)
    → WithinEnd (length xs) b
    → trim_of (a, b) xs ≡ window 0 (position (length xs) a) (position (length xs) b) xs
unfolding trim_of
trim-window a b xs h =
    rw
      (
        clamped-position (length xs) a,
        from_end-position (length xs) b h,
        pos_suc (position (length xs) b),
      )
      (slice-window (position (length xs) a) (position (length xs) b) xs)

-- Where the last index lies k + 2 places before the list, the end of the slice is negative.
trim_end : (len k : ℕ) → from_end len (negsuc (len + suc k)) +ℤ pos 1 ≡ negsuc k
unfolding from_end
trim_end len k = ground arith

slice_from_start :
    (k : ℕ) (xs : List String) → slice (pos 0) (negsuc k) xs ≡ take (length xs - suc k) xs
unfolding slice
slice_from_start k [] = ground arith
slice_from_start k (x ∷ xs) =
    let t : ltb 0 (length (x ∷ xs)) ≡ true = ground arith in
    let e : suc (length xs) - suc k - 0 ≡ suc (length xs) - suc k = omega arith in rw (t, e)

trim_before_start :
    (k : ℕ) (xs : List String)
    → trim_of (pos 0, negsuc (length xs + suc k)) xs ≡ take (length xs - suc k) xs
unfolding trim_of clamped
trim_before_start k xs = rw (trim_end (length xs) k) (slice_from_start k xs)

module _ (js : Js) (r : Request) (s : Store) (a b : ℤ) {xs : List String} {t : Option ℤ}
    (first : js.number (get_param r 1) ≡ integer a) (last : js.number (get_param r 2) ≡ integer b)
    (held : view r.now s.db (get_param r 0)
      ≡ some (record { value = list xs; expired_at = t })) where
  ltrim_run :
      ((ltrim js r s).0 ≡ returns response_ok)
      × Leaves r.now s.db (ltrim js r s).1.db (get_param r 0) (saved (trim_of (a, b) xs) t)
  unfolding ltrim get_list both
  ltrim_run =
      rw (first, last, get-view r.now s.db (get_param r 0), held)
        (refl, Leaves-save_list r.now s.db (get_param r 0) _ _ held)

  -- LTRIM with integer indices, the last one not before the list, keeps the elements at the
  -- positions from the first index to the last, removes the key where none is left, and touches
  -- no other key.
  pub ltrim_lem :
      WithinEnd (length xs) b
      → ((ltrim js r s).0 ≡ returns response_ok)
        × Leaves r.now s.db
            (ltrim js r s).1.db
            (get_param r 0)
            (saved (window 0 (position (length xs) a) (position (length xs) b) xs) t)
  ltrim_lem h = rw trim-window at ltrim_run

-- LTRIM of a list from index 0 to an index that lies k + 2 places before the list keeps the first
-- elements, all but the last k + 1, though no position up to that index is in the list; other keys
-- are as they were.
pub ltrim_before_start :
    (js : Js) (r : Request) (s : Store) (k : ℕ) {xs : List String} {t : Option ℤ}
    → js.number (get_param r 1) ≡ integer (pos 0)
    → js.number (get_param r 2) ≡ integer (negsuc (length xs + suc k))
    → view r.now s.db (get_param r 0) ≡ some (record { value = list xs; expired_at = t })
    → Leaves r.now s.db (ltrim js r s).1.db (get_param r 0) (saved (take (length xs - suc k) xs) t)
ltrim_before_start js r s k {xs} first last held =
    rw (trim_before_start k xs) at
      ((ltrim_run js r s (pos 0) (negsuc (length xs + suc k)) first last held).1)
