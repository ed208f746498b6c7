-- ===== src/ListCommands/Index/Laws.antt =====
-- What LINDEX reads and LSET writes: the element at an index, counted from the end if negative.
use unit_redis_ness.Prelude.{
  ℕ, zero, suc, ◌+◌, ◌-◌, ◌≤◌, ◌<◌, ◌≡◌, ◌≢◌, refl, ap, String, ℤ, pos, negsuc, abs_ℕ, false,
  Option, none, some, List, [], ◌∷◌, length, take, drop, get_elem?, ltb, eqb, eqb_ℤ_iff, lt→ltb,
  if◌then◌else◌, arith, dec_lt, ◌⊎◌, inl, inr,
}
use unit_redis_ness.Outcome.{returns}
use unit_redis_ness.Number.{Js, integer}
use unit_redis_ness.DatabaseValue.{list, get_list}
use unit_redis_ness.Database.Laws.{
  view, Leaves, SameView, view-get, get-view, Leaves-put, live_same,
}
use unit_redis_ness.Token.{text, null_string, response_ok}
use unit_redis_ness.Command.{Request, get_param, Store}
use unit_redis_ness.ListCommands.Slice.{slice, to_index}
use unit_redis_ness.ListCommands.Slice.Window.{get_elem?-splice_one, length-splice_one}
use unit_redis_ness.ListCommands.Index.{lindex, lset, slice_end, joined, not_an_integer, splice_one}

-- The element at an index, if the list has one there.
unfoldable pub element : List String → ℤ → Option String
element xs (pos i) = get_elem? xs i
element xs (negsuc i) = if ltb i (length xs) then get_elem? xs (length xs - suc i) else none

-- The text of a reply that has one: none reads as the empty text.
abbrev pub text_or_empty : Option String → String
text_or_empty none = ""
text_or_empty (some s) = s

take_one-drop :
    (i : ℕ) (xs : List String) → joined (take 1 (drop i xs)) ≡ text_or_empty (get_elem? xs i)
take_one-drop zero [] = refl
take_one-drop zero (x ∷ xs) = refl
take_one-drop (suc i) [] = refl
take_one-drop (suc i) (x ∷ xs) = take_one-drop i xs

slice_at :
    (a b : ℤ) (k : ℕ) (xs : List String)
    → to_index (length xs) a ≡ k
    → to_index (length xs) b ≡ k + 1
    → joined (slice a b xs) ≡ text_or_empty (get_elem? xs k)
unfolding slice
slice_at a b k xs p q = let e : k + 1 - k ≡ 1 = omega arith in rw (p, q, e) (take_one-drop k xs)

slice_none :
    (a b : ℤ) (xs : List String)
    → to_index (length xs) b ≤ to_index (length xs) a
    → joined (slice a b xs) ≡ ""
unfolding slice
slice_none a b xs p =
    let e : to_index (length xs) b - to_index (length xs) a ≡ 0 = omega arith in rw e

get_elem?_beyond : (i : ℕ) (xs : List String) → length xs ≤ i → get_elem? xs i ≡ none
get_elem?_beyond i [] h = refl
get_elem?_beyond zero (x ∷ xs) h = absurd (omega arith)
get_elem?_beyond (suc i) (x ∷ xs) h = get_elem?_beyond i xs (omega arith)

slice_pos :
    (i : ℕ) (xs : List String)
    → joined (slice (pos i) (slice_end (length xs) (pos i)) xs) ≡ text_or_empty (get_elem? xs i)
unfolding slice_end
slice_pos i xs = elim (dec_lt i (length xs)) [
  | yes inside ↦ slice_at (pos i) _ i xs (ground arith) (ground arith)
  | no outside ↦ rw (get_elem?_beyond i xs (omega arith)) (slice_none (pos i) _ xs (ground arith))
]

slice_negsuc :
    (i : ℕ) (xs : List String)
    → (suc i < length xs) ⊎ (0 < i)
    → joined (slice (negsuc i) (slice_end (length xs) (negsuc i)) xs)
      ≡ text_or_empty (element xs (negsuc i))
unfolding slice_end element
slice_negsuc i xs h = elim (dec_lt i (length xs)) [
  | yes inside ↦
      rw (lt→ltb i (length xs) inside)
        (slice_at (negsuc i) _ (length xs - suc i) xs refl (ground arith))
  | no outside ↦
      let t : ltb i (length xs) ≡ false = ground arith in
      rw t (slice_none (negsuc i) _ xs (ground arith))
]

slice-element :
    (z : ℤ) (xs : List String)
    → (length xs ≢ 1) ⊎ (z ≢ negsuc 0)
    → joined (slice z (slice_end (length xs) z) xs) ≡ text_or_empty (element xs z)
slice-element (pos i) xs h = unfold element in slice_pos i xs
slice-element (negsuc zero) [] h = unfold slice slice_end element in refl
slice-element (negsuc zero) (x ∷ []) (inl h) = absurd (h refl)
slice-element (negsuc zero) (x ∷ []) (inr h) = absurd (h refl)
slice-element (negsuc zero) (x ∷ y ∷ xs) h = slice_negsuc 0 (x ∷ y ∷ xs) (inl (omega arith))
slice-element (negsuc (suc i)) xs h = slice_negsuc (suc i) xs (inr (omega arith))

module _ (js : Js) (r : Request) (s : Store) (z : ℤ) {xs : List String} {t : Option ℤ}
    (read : js.number (get_param r 1) ≡ integer z)
    (held : view r.now s.db (get_param r 0)
      ≡ some (record { value = list xs; expired_at = t })) where
  -- LINDEX with an integer index on a list replies with the element there, counted from the end
  -- where it is negative, or with the empty text that stands for nil, except for index -1 of a
  -- list of one element. It changes nothing.
  pub lindex_lem :
      js.parse_int (get_param r 1) ≡ integer z
      → (length xs ≢ 1) ⊎ (z ≢ negsuc 0)
      → ((lindex js r s).0 ≡ returns (text (text_or_empty (element xs z))))
        × SameView r.now s.db (lindex js r s).1.db
  unfolding lindex get_list
  lindex_lem parsed h =
      rw (get-view r.now s.db (get_param r 0), held, read, parsed, (eqb_ℤ_iff z z).1 refl)
        (ap (λ w. returns (text w)) (slice-element z xs h), view-get r.now s.db (get_param r 0))

  -- LSET with an integer index of magnitude below the length of the list replaces the element
  -- there: the list keeps its length and its other elements, the key its deadline, and no other
  -- key changes.
  pub lset_lem :
      abs_ℕ z < length xs
      → ((lset js r s).0 ≡ returns response_ok)
        × (ys : List String) × Leaves r.now s.db
            (lset js r s).1.db
            (get_param r 0)
            (some (record { value = list ys; expired_at = t }))
        × (length ys ≡ length xs)
        × ((j : ℕ)
            → get_elem? ys j
              ≡ (if eqb j (to_index (length xs) z) then some (get_param r 2) else get_elem? xs j))
  unfolding lset get_list
  lset_lem h =
      rw (get-view r.now s.db (get_param r 0), held, read, lt→ltb (abs_ℕ z) (length xs) h)
        (
          refl,
          splice_one z (get_param r 2) xs,
          Leaves-put r.now s.db (get_param r 0) _
              (live_same r.now s.db (get_param r 0) _ _ held refl),
          length-splice_one z (get_param r 2) xs (ground arith),
          λ j. get_elem?-splice_one z (get_param r 2) xs j (ground arith),
        )

  -- LSET refuses an integer index of magnitude at or above the length of the list, -length among
  -- them, with the error of a parameter that is no integer, and changes nothing.
  pub lset_refuses :
      length xs ≤ abs_ℕ z
      → ((lset js r s).0 ≡ returns not_an_integer) × SameView r.now s.db (lset js r s).1.db
  unfolding lset get_list
  lset_refuses h =
      let e : ltb (abs_ℕ z) (length xs) ≡ false = ground arith in
      rw (get-view r.now s.db (get_param r 0), held, read, e)
        (refl, view-get r.now s.db (get_param r 0))

-- LINDEX -1 on a list of one element replies nil, though the element is there.
pub lindex_last_of_one :
    (js : Js) (r : Request) (s : Store) (x : String) {t : Option ℤ}
    → js.number (get_param r 1) ≡ integer (negsuc 0)
    → js.parse_int (get_param r 1) ≡ integer (negsuc 0)
    → view r.now s.db (get_param r 0) ≡ some (record { value = list (x ∷ []); expired_at = t })
    → ((lindex js r s).0 ≡ returns null_string) × (element (x ∷ []) (negsuc 0) ≡ some x)
unfolding lindex get_list slice slice_end element
lindex_last_of_one js r s x read parsed held =
    rw (get-view r.now s.db (get_param r 0), held, read, parsed) (refl, refl)
