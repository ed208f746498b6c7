-- ===== src/Dictionary/Laws.antt =====
-- The map laws of `Dictionary`, and that a key occurs once.
use unit_redis_ness.Prelude.{
  ◌+◌, String, ◌≡◌, refl, sym, true, none, some, List, [], ◌∷◌, map, length, ◌==◌, if◌then◌else◌,
  eq_iff, arith, Option-cases, Bool-cases, length-map, inl, inr,
}
use unit_redis_ness.Dictionary.{
  Dictionary, Truthy, lookup, insert, without, get, put, keys, size, remove, is_truthy, delete_all,
  clear,
}

module _ {ℓ} {V : Type ℓ} where
  pub lookup-insert :
      (key other : String) (new : V) (entries : List (String × V))
      → lookup other (insert key new entries)
        ≡ (if key == other then some new else lookup other entries)
  unfolding lookup insert
  lookup-insert key other new [] = refl
  lookup-insert key other new ((first, old) ∷ rest) = ground (
    arith,
    lookup-insert key other new rest,
    eq_iff first key,
    eq_iff first other,
    eq_iff key other,
  )

  pub lookup-without :
      (key other : String) (entries : List (String × V))
      → lookup other (without key entries) ≡ (if key == other then none else lookup other entries)
  unfolding lookup without
  lookup-without key other [] = ground arith
  lookup-without key other ((first, old) ∷ rest) =
      ground (
        arith,
        eq_iff first other,
        eq_iff first key,
        eq_iff key other,
        lookup-without key other rest,
      )

  -- A write that puts a value back changes nothing.
  pub insert_same :
      (k : String) (v : V) (m : List (String × V)) → lookup k m ≡ some v → insert k v m ≡ m
  unfolding lookup insert
  insert_same k v [] h = cc
  insert_same k v ((j, w) ∷ m) h = ground (arith, insert_same k v m)

  pub without_absent : (k : String) (m : List (String × V)) → lookup k m ≡ none → without k m ≡ m
  unfolding lookup without
  without_absent k [] h = refl
  without_absent k ((j, w) ∷ m) h = ground (arith, without_absent k m)

  pub insert-insert :
      (k : String) (v w : V) (m : List (String × V)) → insert k v (insert k w m) ≡ insert k v m
  unfolding insert
  insert-insert k v w [] = ground (arith, eq_iff k k)
  insert-insert k v w ((j, x) ∷ m) = ground (arith, insert-insert k v w m, eq_iff j k)

-- Every key stands once.
module _ {ℓ} {V : Type ℓ} where
  abbrev pub IsDistinct : List (String × V) → Type ℓ
  IsDistinct [] = Unit
  IsDistinct ((k, v) ∷ m) = (lookup k m ≡ none) × IsDistinct m

  IsDistinct-insert :
      (k : String) (v : V) (m : List (String × V)) → IsDistinct m → IsDistinct (insert k v m)
  unfolding insert
  IsDistinct-insert k v [] h = (unfold lookup in refl, tt)
  IsDistinct-insert k v ((j, w) ∷ m) h = elim (Bool-cases (j == k)) [
    | inl same ↦ rw same h
    | inr other ↦ rw other (
      rw (lookup-insert k j v m) (ground (arith, eq_iff j k, eq_iff k j)),
      IsDistinct-insert k v m h.1,
    )
  ]

  pub IsDistinct-without :
      (k : String) (m : List (String × V)) → IsDistinct m → IsDistinct (without k m)
  unfolding without
  IsDistinct-without k [] h = tt
  IsDistinct-without k ((j, w) ∷ m) h = ground (arith, lookup-without k j m, IsDistinct-without k m)

  length-insert :
      (k : String) (v w : V) (m : List (String × V))
      → (lookup k m ≡ none → length (insert k v m) ≡ length m + 1)
        × (lookup k m ≡ some w → length (insert k v m) ≡ length m)
  unfolding insert lookup
  length-insert k v w [] = ground arith
  length-insert k v w ((j, x) ∷ m) = ground (arith, length-insert k v w m)

  length-without :
      (k : String) (v : V) (m : List (String × V))
      → IsDistinct m
      → lookup k m ≡ some v
      → length (without k m) + 1 ≡ length m
  unfolding without lookup
  length-without k v [] d h = cc
  length-without k v ((j, x) ∷ m) d h =
      ground (arith, length-without k v m, without_absent k m, eq_iff j k)

module _ {ℓ} {V : Type ℓ} where
  pub get-put :
      (d : Dictionary V) (k j : String) (v : V)
      → get (put d k v) j ≡ (if k == j then some v else get d j)
  unfolding get put
  get-put d k j v = lookup-insert k j v d.items

  pub put-IsDistinct :
      (d : Dictionary V) (k : String) (v : V) → IsDistinct d.items → IsDistinct (put d k v).items
  unfolding put
  put-IsDistinct d k v = IsDistinct-insert k v d.items

  -- A write to a key that is there puts the value in its place, and the entries stay as many.
  pub size-put :
      (d : Dictionary V) (k : String) (v w : V)
      → (get d k ≡ none → size (put d k v) ≡ size d + 1)
        × (get d k ≡ some w → size (put d k v) ≡ size d)
  unfolding get put size keys
  size-put d k v w = simp (length-map {A = String × V} (λ e. e.0)) (length-insert k v w d.items)

module _ {ℓ} {V : Type ℓ} ⦃t : Truthy V⦄ where
  pub get-remove :
      (d : Dictionary V) (k j : String)
      → ((v : V) → t.truthy v ≡ true)
      → get (remove d k).1 j ≡ (if k == j then none else get d j)
  unfolding get remove
  get-remove d k j objects = elim (Option-cases (lookup k d.items)) [
    | inl e ↦ rw (e, is_truthy) (ground (arith, eq_iff k j))
    | inr (v, e) ↦ rw (e, is_truthy, objects v) (lookup-without k j d.items)
  ]

  -- Where every value is truthy, `remove` takes out the entry of the key, if there is one.
  pub remove-items :
      (d : Dictionary V) (k : String)
      → ((v : V) → t.truthy v ≡ true)
      → (remove d k).1.items ≡ without k d.items
  unfolding remove get
  remove-items d k objects = elim (Option-cases (lookup k d.items)) [
    | inl e ↦ rw (e, is_truthy) (sym (without_absent k d.items e))
    | inr (v, e) ↦ rw (e, is_truthy, objects v) refl
  ]

  pub remove-IsDistinct :
      (d : Dictionary V) (k : String) → IsDistinct d.items → IsDistinct (remove d k).1.items
  unfolding remove
  remove-IsDistinct d k h = ground (arith, IsDistinct-without k d.items)

  pub size-remove :
      (d : Dictionary V) (k : String) (v : V)
      → IsDistinct d.items
      → get d k ≡ some v
      → t.truthy v ≡ true
      → size (remove d k).1 + 1 ≡ size d
  unfolding get remove size keys
  size-remove d k v h e live =
      rw (e, is_truthy, live)
        (simp (length-map {A = String × V} (λ e. e.0)) (length-without k v d.items h e))

module _ {ℓ} {V : Type ℓ} where
  delete_all_nil : (ks : List String) → delete_all {V = V} ks [] ≡ []
  unfolding delete_all without
  delete_all_nil [] = refl
  delete_all_nil (k ∷ ks) = delete_all_nil ks

  -- Deleting every key leaves nothing.
  delete_all_keys : (m : List (String × V)) → IsDistinct m → delete_all (map (λ e. e.0) m) m ≡ []
  unfolding delete_all without
  delete_all_keys [] h = refl
  delete_all_keys ((k, v) ∷ m) h = ground (arith, eq_iff k k, without_absent k m, delete_all_keys m)

  pub clear-items : (d : Dictionary V) → IsDistinct d.items → (clear d).items ≡ []
  unfolding clear
  clear-items d = delete_all_keys d.items
