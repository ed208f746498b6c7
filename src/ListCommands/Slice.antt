-- ===== src/ListCommands/Slice.antt =====
-- The array methods that the list commands call: `slice(start, end)` and `splice(start, 1, value)`,
-- with JavaScript's reading of an index: from the end where it is negative, kept within the array.
pub mod Window
use unit_redis_ness.Prelude.{
  ℕ, suc, ◌+◌, ◌-◌, ℤ, pos, negsuc, List, ◌∷◌, ◌++◌, length, take, drop, ltb, if◌then◌else◌,
}

abbrev pub to_index : ℕ → ℤ → ℕ
to_index len (pos n) = if ltb n len then n else len
to_index len (negsuc n) = len - suc n

unfoldable pub slice {ℓ} : {A : Type ℓ} → ℤ → ℤ → List A → List A
slice start end xs =
    take (to_index (length xs) end - to_index (length xs) start)
      (drop (to_index (length xs) start) xs)

unfoldable pub splice_one {ℓ} : {A : Type ℓ} → ℤ → A → List A → List A
splice_one start v xs =
    take (to_index (length xs) start) xs ++ (v ∷ drop (to_index (length xs) start + 1) xs)
