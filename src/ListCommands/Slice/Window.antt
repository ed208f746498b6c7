-- ===== src/ListCommands/Slice/Window.antt =====
-- `slice` against the positions that it keeps.
use unit_redis_ness.Prelude.{
  ℕ, zero, suc, ◌+◌, ◌-◌, ◌≤◌, ◌<◌, ◌≡◌, refl, ℤ, pos, List, [], ◌∷◌, ◌++◌, length, take, drop, ltb,
  leb, eqb, ◌&&◌, if◌then◌else◌, arith, get_elem?, sym, ◌∙◌, lt→ltb, take_of_length-le, dec_lt,
  true, false, some, drop_of_length-le, length-take, length-drop, length-append,
}
use native.Mathlib.Numerals.{add-one}
use unit_redis_ness.ListCommands.Slice.{to_index, slice, splice_one}

module _ {ℓ} {A : Type ℓ} where
  -- The elements at the positions from `lo` to `hi`; the list starts at position `i`.
  unfoldable pub window : ℕ → ℕ → ℕ → List A → List A
  window i lo hi [] = []
  window i lo hi (x ∷ xs) =
      let rest = window (suc i) lo hi xs in if leb lo i && leb i hi then x ∷ rest else rest

  take-nil : (n : ℕ) → take {A = A} n [] ≡ []
  take-nil zero = refl
  take-nil (suc n) = refl

  drop-nil : (n : ℕ) → drop {A = A} n [] ≡ []
  drop-nil zero = refl
  drop-nil (suc n) = refl

  window-take-drop :
      (i lo hi : ℕ) (xs : List A)
      → window i lo hi xs ≡ take (suc hi - (i + (lo - i))) (drop (lo - i) xs)
  unfolding window
  window-take-drop i lo hi [] = simp (drop-nil, take-nil)
  window-take-drop i lo hi (x ∷ xs) = elim (dec_lt i lo) [
    | yes before ↦
        let e : lo - i ≡ suc (lo - suc i) = omega arith in
        let f : i + suc (lo - suc i) ≡ suc i + (lo - suc i) = omega arith in
        let t : leb lo i ≡ false = ground arith in rw (t, e, f) (window-take-drop (suc i) lo hi xs)
    | no here ↦ elim (dec_lt hi i) [
      | yes behind ↦
          let e : suc hi - (i + (lo - i)) ≡ 0 = omega arith in
          let f : suc hi - (suc i + (lo - suc i)) ≡ 0 = omega arith in
          let t : leb i hi ≡ false = ground arith in
          let u : leb lo i ≡ true = ground arith in
          rw (t, u, e, window-take-drop (suc i) lo hi xs, f)
      | no within ↦
          let e : lo - i ≡ 0 = omega arith in
          let f : suc hi - (i + 0) ≡ suc (hi - i) = omega arith in
          let g : lo - suc i ≡ 0 = omega arith in
          let k : suc hi - (suc i + 0) ≡ hi - i = omega arith in
          let t : leb i hi ≡ true = ground arith in
          let u : leb lo i ≡ true = ground arith in
          rw (t, u, e, f, window-take-drop (suc i) lo hi xs, g, k)
    ]
  ]

  get_elem?-replaced :
      (n : ℕ) (v : A) (xs : List A) (j : ℕ)
      → n < length xs
      → get_elem? (take n xs ++ (v ∷ drop (suc n) xs)) j
        ≡ (if eqb j n then some v else get_elem? xs j)
  get_elem?-replaced n v [] j h = absurd (omega arith)
  get_elem?-replaced zero v (x ∷ xs) zero h = refl
  get_elem?-replaced zero v (x ∷ xs) (suc j) h = ground arith
  get_elem?-replaced (suc n) v (x ∷ xs) zero h = ground arith
  get_elem?-replaced (suc n) v (x ∷ xs) (suc j) h = ground (arith, get_elem?-replaced n v xs j)

  pub get_elem?-splice_one :
      (z : ℤ) (v : A) (xs : List A) (j : ℕ)
      → to_index (length xs) z < length xs
      → get_elem? (splice_one z v xs) j
        ≡ (if eqb j (to_index (length xs) z) then some v else get_elem? xs j)
  unfolding splice_one
  get_elem?-splice_one z v xs j h =
      rw add-one (get_elem?-replaced (to_index (length xs) z) v xs j h)

  pub length-splice_one :
      (z : ℤ) (v : A) (xs : List A)
      → to_index (length xs) z < length xs
      → length (splice_one z v xs) ≡ length xs
  unfolding splice_one
  length-splice_one z v xs h = omega (
    arith,
    length-append (take (to_index (length xs) z) xs) (v ∷ drop (to_index (length xs) z + 1) xs),
    length-take (to_index (length xs) z) xs,
    length-drop (to_index (length xs) z + 1) xs,
  )

  take-drop_clamped :
      (a b n : ℕ) (xs : List A)
      → length xs ≤ a + n
      → length xs ≤ b + n
      → take a (drop n xs) ≡ take b (drop n xs)
  take-drop_clamped a b n xs h k =
      let d = length-drop n xs in
      take_of_length-le a (drop n xs) (omega arith)
      ∙ sym (take_of_length-le b (drop n xs) (omega arith))

  pub window_lem : (lo hi : ℕ) (xs : List A) → window 0 lo hi xs ≡ take (suc hi - lo) (drop lo xs)
  window_lem lo hi xs =
      let e : lo - 0 ≡ lo = omega arith in
      let f : 0 + lo ≡ lo = omega arith in window-take-drop 0 lo hi xs ∙ rw (e, f)

  -- A slice between two absolute positions keeps the positions before `stop`.
  pub slice-window :
      (lo hi : ℕ) (xs : List A) → slice (pos lo) (pos (suc hi)) xs ≡ window 0 lo hi xs
  unfolding slice
  slice-window lo hi xs = elim (dec_lt lo (length xs)) [
    | yes inside ↦ elim (dec_lt (suc hi) (length xs)) [
      | yes short ↦
          rw (lt→ltb lo (length xs) inside, lt→ltb (suc hi) (length xs) short)
            (sym (window_lem lo hi xs))
      | no long ↦
          let t : ltb (suc hi) (length xs) ≡ false = ground arith in
          rw (lt→ltb lo (length xs) inside, t, window_lem lo hi xs)
            (take-drop_clamped _ _ lo xs (omega arith) (omega arith))
    ]
    | no outside ↦
        let t : ltb lo (length xs) ≡ false = ground arith in
        rw
          (
            t,
            window_lem lo hi xs,
            drop_of_length-le lo xs (omega arith),
            drop_of_length-le (length xs) xs (omega arith),
          )
          (simp take-nil)
  ]
