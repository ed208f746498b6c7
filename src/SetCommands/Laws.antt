-- ===== src/SetCommands/Laws.antt =====
-- SADD and SREM against sets as predicates.
use unit_redis_ness.Prelude.{
  ℕ, ℤ, zero, suc, ◌+◌, ◌-◌, String, ◌≡◌, refl, ap, ◌∙◌, true, false, not, ◌&&◌, ◌||◌, Option, none,
  some, List, [], ◌∷◌, ◌++◌, length, drop, arith, ◌==◌, eq_iff, if◌then◌else◌, Bool-cases, inl, inr,
}
use unit_redis_ness.Outcome.{returns}
use unit_redis_ness.DatabaseValue.{DatabaseValue, set, of_payload, get_set}
use unit_redis_ness.Database
use unit_redis_ness.Database.Laws.{
  view, Leaves, get-view, view-get, Leaves-put, Leaves-remove, live_undated, live_same,
}
use unit_redis_ness.Token.{count}
use unit_redis_ness.Command.{Request, get_param, Store}
use unit_redis_ness.SetCommands.{
  or_new_set, has, delete, add_each, delete_each, sadd, srem, put_rest,
}

-- No member stands twice in the list.
abbrev pub IsSetList : List String → Type 0
IsSetList [] = Unit
IsSetList (x ∷ xs) = (has x xs ≡ false) × IsSetList xs

pub has-append : (m y : String) (xs : List String) → has m (xs ++ y ∷ []) ≡ (has m xs || y == m)
unfolding has
has-append m y [] = ground arith
has-append m y (x ∷ xs) = ground (arith, has-append m y xs)

pub append-IsSetList :
    (y : String) (xs : List String) → has y xs ≡ false → IsSetList xs → IsSetList (xs ++ y ∷ [])
unfolding has
append-IsSetList y [] h s = (refl, tt)
append-IsSetList y (x ∷ xs) h s = (
  ground (arith, has-append x y xs, s.0, eq_iff x y, eq_iff y x),
  append-IsSetList y xs (ground arith) s.1,
)

pub has-add_each :
    (m : String) (ms xs : List String) → has m (add_each ms xs) ≡ (has m xs || has m ms)
unfolding has add_each
has-add_each m [] xs = ground arith
has-add_each m (y ∷ ms) xs = elim (Bool-cases (has y xs)) [
  | inl there ↦ rw (there, has-add_each m ms xs) (ground (arith, eq_iff y m))
  | inr fresh ↦ rw (fresh, has-add_each m ms (xs ++ y ∷ []), has-append m y xs) (ground arith)
]

pub add_each-IsSetList : (ms xs : List String) → IsSetList xs → IsSetList (add_each ms xs)
unfolding add_each
add_each-IsSetList [] xs s = s
add_each-IsSetList (y ∷ ms) xs s = elim (Bool-cases (has y xs)) [
  | inl there ↦ rw there (add_each-IsSetList ms xs s)
  | inr fresh ↦ rw fresh (add_each-IsSetList ms (xs ++ y ∷ []) (append-IsSetList y xs fresh s))
]

pub has-delete :
    (m y : String) (xs : List String)
    → IsSetList xs
    → has m (delete y xs) ≡ (if y == m then false else has m xs)
unfolding has delete
has-delete m y [] s = ground arith
has-delete m y (x ∷ xs) s =
    ground (arith, has-delete m y xs, eq_iff x y, eq_iff x m, eq_iff y m, s.0)

pub delete-IsSetList : (y : String) (xs : List String) → IsSetList xs → IsSetList (delete y xs)
unfolding delete
delete-IsSetList y [] s = tt
delete-IsSetList y (x ∷ xs) s = elim (Bool-cases (x == y)) [
  | inl same ↦ rw same (s.1)
  | inr differ ↦
      rw differ ((has-delete x y xs s.1 ∙ ground (arith, s.0)), delete-IsSetList y xs s.1)
]

length-delete :
    (y : String) (xs : List String) → has y xs ≡ true → suc (length (delete y xs)) ≡ length xs
unfolding has delete
length-delete y [] h = cc
length-delete y (x ∷ xs) h = ground (arith, length-delete y xs)

-- The key holds the set with the deadline, or nothing, which counts as an empty set without one.
unfoldable pub HoldsSet : Option DatabaseValue → List String → Option ℤ → Type 0
HoldsSet none xs t = (xs ≡ []) × (t ≡ none)
HoldsSet (some v) xs t = v ≡ record { value = set xs; expired_at = t }

pub or_new_set-HoldsSet :
    (o : Option DatabaseValue) (xs : List String) (t : Option ℤ)
    → HoldsSet o xs t
    → or_new_set o ≡ record { value = set xs; expired_at = t }
unfolding HoldsSet
or_new_set-HoldsSet none xs t h = rw (h.0, h.1) refl
or_new_set-HoldsSet (some v) xs t h = h

module _ (r : Request) (s : Store) (xs : List String) (t : Option ℤ)
    (held : HoldsSet (view r.now s.db (get_param r 0)) xs t) (distinct : IsSetList xs) where
  -- SADD at a key that holds a set or nothing leaves a set there whose members are those of the
  -- old one and the parameters, each once, without a deadline, replies with the number of
  -- members that came in, and touches no other key.
  pub sadd_lem :
      (ys : List String) × IsSetList ys
      × ((m : String) → has m ys ≡ (has m xs || has m (drop 1 r.params)))
      × Leaves r.now s.db (sadd r s).1.db (get_param r 0) (some (of_payload (set ys)))
      × ((sadd r s).0 ≡ returns (count (length ys - length xs)))
  unfolding sadd get_set
  sadd_lem = (
    add_each (drop 1 r.params) xs,
    add_each-IsSetList (drop 1 r.params) xs distinct,
    λ m. has-add_each m (drop 1 r.params) xs,
    rw
        (
          get-view r.now s.db (get_param r 0),
          or_new_set-HoldsSet (view r.now s.db (get_param r 0)) xs t held,
        )
        (Leaves-put r.now s.db (get_param r 0) _ (live_undated r.now s.db (get_param r 0) _ refl)),
    rw
        (
          get-view r.now s.db (get_param r 0),
          or_new_set-HoldsSet (view r.now s.db (get_param r 0)) xs t held,
        )
        refl,
  )

pub delete_each-IsSetList : (ms xs : List String) → IsSetList xs → IsSetList (delete_each ms xs).1
unfolding delete_each
delete_each-IsSetList [] xs s = s
delete_each-IsSetList (y ∷ ms) xs s = elim (Bool-cases (has y xs)) [
  | inl there ↦ rw there (delete_each-IsSetList ms (delete y xs) (delete-IsSetList y xs s))
  | inr fresh ↦ rw fresh (delete_each-IsSetList ms xs s)
]

has-delete_each :
    (m : String) (ms xs : List String)
    → IsSetList xs
    → has m (delete_each ms xs).1 ≡ (has m xs && not (has m ms))
unfolding has delete_each
has-delete_each m [] xs s = ground arith
has-delete_each m (y ∷ ms) xs s = elim (Bool-cases (has y xs)) [
  | inl there ↦
      rw (there, has-delete_each m ms (delete y xs) (delete-IsSetList y xs s), has-delete m y xs s)
        (ground arith)
  | inr fresh ↦ rw (fresh, has-delete_each m ms xs s) (ground (arith, eq_iff y m))
]

length-delete_each :
    (ms xs : List String) → (delete_each ms xs).0 + length (delete_each ms xs).1 ≡ length xs
unfolding delete_each
length-delete_each [] xs = omega arith
length-delete_each (y ∷ ms) xs = elim (Bool-cases (has y xs)) [
  | inl there ↦
      rw there (omega (arith, length-delete_each ms (delete y xs), length-delete y xs there))
  | inr fresh ↦ rw fresh (length-delete_each ms xs)
]

-- A loop that finds no member leaves the set as it is.
delete_each_none : (ms xs : List String) → (delete_each ms xs).0 ≡ 0 → (delete_each ms xs).1 ≡ xs
unfolding delete_each
delete_each_none [] xs h = refl
delete_each_none (y ∷ ms) xs h = elim (Bool-cases (has y xs)) [
  | inl there ↦ absurd (ground arith)
  | inr fresh ↦ rw fresh (delete_each_none ms xs (ground arith))
]

-- What the key holds of a set afterwards.
abbrev pub kept : List String → Option ℤ → Option DatabaseValue
kept [] t = none
kept (y ∷ ys) t = some (record { value = set (y ∷ ys); expired_at = t })

module _ (r : Request) (s : Store) (v : DatabaseValue)
    (held : view r.now s.db (get_param r 0) ≡ some v) where
  unchanged :
      (j : String) → view r.now s.db j ≡ (if get_param r 0 == j then some v else view r.now s.db j)
  unchanged j = elim (Bool-cases (get_param r 0 == j)) [
    | inl same ↦ rw (same, ← (eq_iff (get_param r 0) j).0 same) held
    | inr differ ↦ rw differ refl
  ]

  Leaves-put_rest :
      (n : ℕ) (ys : List String)
      → (n ≡ 0 → kept ys v.expired_at ≡ some v)
      → Leaves r.now s.db
          (put_rest
            (get_param r 0)
            v
            (n, ys)
            (record s { db = (Database.get r.now s.db (get_param r 0)).1 })).1.db
          (get_param r 0)
          (kept ys v.expired_at)
  unfolding put_rest
  Leaves-put_rest zero ys h = λ j. rw (h refl) (view-get r.now s.db (get_param r 0) j ∙ unchanged j)
  Leaves-put_rest (suc n) [] h = Leaves-remove r.now s.db (get_param r 0)
  Leaves-put_rest (suc n) (y ∷ ys) h =
      Leaves-put r.now s.db (get_param r 0) _ (live_same r.now s.db (get_param r 0) v _ held refl)

put_rest-returns :
    (key : String) (v : DatabaseValue) (n : ℕ) (ys : List String) (s : Store)
    → (put_rest key v (n, ys) s).0 ≡ returns tt
unfolding put_rest
put_rest-returns key v zero ys s = refl
put_rest-returns key v (suc n) [] s = refl
put_rest-returns key v (suc n) (y ∷ ys) s = refl

module _ (r : Request) (s : Store) (x : String) (xs : List String) {t : Option ℤ}
    (held : view r.now s.db (get_param r 0)
      ≡ some (record { value = set (x ∷ xs); expired_at = t }))
    (distinct : IsSetList (x ∷ xs)) where
  -- SREM at a key that holds a set with members leaves the members that are not among the
  -- parameters, each once, with the deadline of the key, or removes the key if none is left; it
  -- replies with the number of members that went out, and touches no other key.
  pub srem_lem :
      (ys : List String) × IsSetList ys
      × ((m : String) → has m ys ≡ (has m (x ∷ xs) && not (has m (drop 1 r.params))))
      × Leaves r.now s.db (srem r s).1.db (get_param r 0) (kept ys t)
      × ((srem r s).0 ≡ returns (count (length (x ∷ xs) - length ys)))
  unfolding srem get_set
  srem_lem =
      let ms = drop 1 r.params in
      let v : DatabaseValue = record { value = set (x ∷ xs); expired_at = t } in
      let here = record s { db = (Database.get r.now s.db (get_param r 0)).1 } in
      let done =
        put_rest-returns (get_param r 0) v (delete_each ms (x ∷ xs)).0 (delete_each ms (x ∷ xs)).1
          here in
      let gone : (delete_each ms (x ∷ xs)).0
          ≡ length (x ∷ xs) - length (delete_each ms (x ∷ xs)).1 =
        omega (arith, length-delete_each ms (x ∷ xs)) in
      (
        (delete_each ms (x ∷ xs)).1,
        delete_each-IsSetList ms (x ∷ xs) distinct,
        λ m. has-delete_each m ms (x ∷ xs) distinct,
        rw (get-view r.now s.db (get_param r 0), held, done)
            (Leaves-put_rest r s v held (delete_each ms (x ∷ xs)).0 (delete_each ms (x ∷ xs)).1
              (λ none_found. rw (delete_each_none ms (x ∷ xs) none_found) refl)),
        rw (get-view r.now s.db (get_param r 0), held, done) (ap (λ n. returns (count n)) gone),
      )
