-- ===== src/ListCommands/Rem/Laws.antt =====
-- LREM against the removal of the first occurrences of a value.
use unit_redis_ness.Prelude.{
  ℕ, zero, suc, ◌+◌, ◌≡◌, refl, ap, sym, ◌∙◌, String, ℤ, pos, negsuc, false, Option, some, List, [],
  ◌∷◌, ◌++◌, map, length, length-take, take_of_length-le, eqb_ℤ_iff, dec_lt, take, ◌==◌, eq_refl,
  if◌then◌else◌, arith, Bool-cases, inl, inr,
}
use Prim.Native.Nat.{min}
use unit_redis_ness.Outcome.{returns}
use unit_redis_ness.Number.{Js, integer}
use unit_redis_ness.DatabaseValue.{list, get_list}
use unit_redis_ness.Database.Laws.{view, Leaves, get-view}
use unit_redis_ness.Token.{count}
use unit_redis_ness.Command.{Request, get_param, Store}
use unit_redis_ness.ListCommands.Save.{saved, Leaves-save_list}
use unit_redis_ness.ListCommands.Rem.{lrem, matching, to_remove, delete_at, delete_each, removed}

-- The list without the first `n` elements that equal `v`.
unfoldable pub erase_first : ℕ → String → List String → List String
erase_first zero v xs = xs
erase_first (suc n) v [] = []
erase_first (suc n) v (x ∷ xs) =
    let fewer = erase_first n v xs in
    let same = x ∷ erase_first (suc n) v xs in if x == v then fewer else same

unfoldable pub occurrences : String → List String → ℕ
occurrences v [] = 0
occurrences v (x ∷ xs) = let rest = occurrences v xs in if x == v then suc rest else rest

matching_shift :
    (i : ℕ) (v : String) (xs : List String) → matching (suc i) v xs ≡ map suc (matching i v xs)
unfolding matching
matching_shift i v [] = refl
matching_shift i v (x ∷ xs) = ground (arith, matching_shift (suc i) v xs)

-- A positive count takes the first matches.
to_remove_pos :
    (n c m taken : ℕ) (is : List ℕ)
    → c ≡ suc n + taken
    → to_remove (pos c) m taken is ≡ take (suc n) is
unfolding to_remove
to_remove_pos n c m taken [] e = refl
to_remove_pos zero c m taken (i ∷ is) e = ground arith
to_remove_pos (suc n) c m taken (i ∷ is) e = ground (arith, to_remove_pos n c m (suc taken) is)

to_remove_zero : (m taken : ℕ) (is : List ℕ) → to_remove (pos 0) m taken is ≡ is
unfolding to_remove
to_remove_zero m taken [] = refl
to_remove_zero m taken (i ∷ is) = ap (◌∷◌ i) (to_remove_zero m (suc taken) is)

delete_each_shift :
    (x : String) (is : List ℕ) (xs : List String)
    → delete_each (map suc is) (x ∷ xs) ≡ x ∷ delete_each is xs
unfolding delete_each
delete_each_shift x [] xs = refl
delete_each_shift x (i ∷ is) xs = rw (delete_each_shift x is xs)

take-map : (n : ℕ) (is : List ℕ) → take n (map suc is) ≡ map suc (take n is)
take-map zero is = refl
take-map (suc n) [] = refl
take-map (suc n) (i ∷ is) = ap (◌∷◌ (suc i)) (take-map n is)

delete_first :
    (n : ℕ) (v : String) (xs : List String)
    → delete_each (take n (matching 0 v xs)) xs ≡ erase_first n v xs
unfolding matching delete_each erase_first
delete_first zero v xs = refl
delete_first (suc n) v [] = refl
delete_first (suc n) v (x ∷ xs) = elim (Bool-cases (x == v)) [
  | inl e ↦ rw (e, matching_shift 0 v xs, take-map, delete_each_shift) (delete_first n v xs)
  | inr e ↦
      rw (e, matching_shift 0 v xs, take-map (suc n), delete_each_shift)
        (ap (◌∷◌ x) (delete_first (suc n) v xs))
]

length-matching :
    (i : ℕ) (v : String) (xs : List String) → length (matching i v xs) ≡ occurrences v xs
unfolding matching occurrences
length-matching i v [] = refl
length-matching i v (x ∷ xs) = ground (arith, length-matching (suc i) v xs)

-- How many elements a count that is not negative asks for: 0 asks for all.
unfoldable pub quota : ℕ → ℕ → ℕ
quota zero found = found
quota (suc n) found = min (suc n) found

take-min : (n : ℕ) (is : List ℕ) → take n is ≡ take (min n (length is)) is
take-min n is = elim (dec_lt n (length is)) [
  | yes short ↦ let e : min n (length is) ≡ n = omega arith in rw e
  | no long ↦
      let e : min n (length is) ≡ length is = omega arith in
      rw (e, take_of_length-le n is (omega arith), take_of_length-le (length is) is (omega arith))
]

removed-quota :
    (n : ℕ) (v : String) (xs : List String)
    → removed (pos n) v xs ≡ take (quota n (occurrences v xs)) (matching 0 v xs)
unfolding removed quota
removed-quota zero v xs =
    to_remove_zero (length (matching 0 v xs)) 0 (matching 0 v xs)
    ∙ sym (take_of_length-le _ (matching 0 v xs) (omega (arith, length-matching 0 v xs)))
removed-quota (suc n) v xs =
    to_remove_pos n (suc n) (length (matching 0 v xs)) 0 (matching 0 v xs) (omega arith)
    ∙ take-min (suc n) (matching 0 v xs)
    ∙ rw (length-matching 0 v xs)

length-removed :
    (n : ℕ) (v : String) (xs : List String)
    → length (removed (pos n) v xs) ≡ quota n (occurrences v xs)
unfolding quota
length-removed zero v xs =
    rw (removed-quota 0 v xs, length-take) (omega (arith, length-matching 0 v xs))
length-removed (suc n) v xs =
    rw (removed-quota (suc n) v xs, length-take) (omega (arith, length-matching 0 v xs))

-- LREM with a count that is not negative, and that the printing of numbers keeps, removes the
-- first elements that equal the value, as many as the count asks for (all of them for 0), replies
-- with their number, removes the key of a list that is left empty, and touches no other key.
pub lrem_lem :
    (js : Js) (r : Request) (s : Store) (n : ℕ) {xs : List String} {t : Option ℤ}
    → js.number (get_param r 1) ≡ integer (pos n)
    → js.parse_int (js.print (integer (pos n))) ≡ integer (pos n)
    → view r.now s.db (get_param r 0) ≡ some (record { value = list xs; expired_at = t })
    → ((lrem js r s).0 ≡ returns (count (quota n (occurrences (get_param r 2) xs))))
      × Leaves r.now s.db
          (lrem js r s).1.db
          (get_param r 0)
          (saved (erase_first (quota n (occurrences (get_param r 2) xs)) (get_param r 2) xs) t)
unfolding lrem get_list
lrem_lem js r s n {xs} read printed held =
    rw
      (
        get-view r.now s.db (get_param r 0),
        held,
        read,
        printed,
        (eqb_ℤ_iff (pos n) (pos n)).1 refl,
        length-removed n (get_param r 2) xs,
        removed-quota n (get_param r 2) xs,
        delete_first,
      )
      (refl, Leaves-save_list r.now s.db (get_param r 0) _ _ held)

-- For a count of -1, the index of a match is compared with the number of matches: from a list
-- whose second element and whose last one equal the value, with no match between them and another
-- first element, the second element is removed and the last one stays.
pub lrem_from_tail :
    (y v : String) (ys : List String)
    → (y == v) ≡ false
    → matching 2 v (ys ++ v ∷ []) ≡ suc (suc (length ys)) ∷ []
    → delete_each (removed (negsuc 0) v (y ∷ v ∷ ys ++ v ∷ [])) (y ∷ v ∷ ys ++ v ∷ [])
      ≡ y ∷ ys ++ v ∷ []
unfolding removed matching to_remove delete_each delete_at
lrem_from_tail y v ys e h = rw (e, eq_refl, h)
