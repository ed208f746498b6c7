-- ===== src/SetCommands/Several/Smove.antt =====
-- SMOVE against sets as predicates, and the member that it can lose.
use unit_redis_ness.Prelude.{
  ℕ, String, ◌≡◌, refl, ap, ◌∙◌, true, false, ◌||◌, Option, none, some, List, [], ◌∷◌, ◌++◌, arith,
  ◌==◌, eq_iff, if◌then◌else◌, ℤ, Bool-cases, inl, inr,
}
use unit_redis_ness.Outcome.{returns, throws}
use unit_redis_ness.DatabaseValue.{DatabaseValue, set, of_payload, get_set, wrong_type}
use unit_redis_ness.Database
use unit_redis_ness.Database.{Database}
use unit_redis_ness.Database.Laws.{
  view, get-view, view-get, view-put, live_undated, live_same, get_hit, Leaves,
}
use unit_redis_ness.Token.{count}
use unit_redis_ness.Command.{Request, get_param, Store}
use unit_redis_ness.SetCommands.{or_new_set, has, delete}
use unit_redis_ness.SetCommands.Laws.{
  HoldsSet, or_new_set-HoldsSet, IsSetList, has-delete, has-append,
}
use unit_redis_ness.SetCommands.Several.{smove, smove_of, move_into}

-- The set that takes the member in; a set that has it keeps its deadline.
abbrev pub taken : String → List String → Option DatabaseValue → Option DatabaseValue
taken m ys old = if has m ys then old else some (of_payload (set (ys ++ m ∷ [])))

module _ (now : ℕ) (db : Database) (from to j : String) (a b : DatabaseValue)
    (undated : b.expired_at ≡ none) where
  put_back :
      view now (Database.put (Database.put (Database.get now db to).1 from a) from b) j
      ≡ (if from == j then some b else if to == j then view now db to else view now db j)
  put_back =
      let there = Database.put (Database.get now db to).1 from a in
      view-put now there from j b
      ∙ ground (
        arith,
        view-put now (Database.get now db to).1 from j a,
        view-get now db to j,
        live_undated now db from b undated,
        eq_iff to j,
      )

  put_both :
      (c : DatabaseValue)
      → c.expired_at ≡ none
      → view now
          (Database.put (Database.put (Database.put (Database.get now db to).1 from a) to c) from b)
          j
        ≡ (if from == j then some b else if to == j then some c else view now db j)
  put_both c also =
      let first = Database.put (Database.get now db to).1 from a in
      view-put now (Database.put first to c) from j b
      ∙ ground (
        arith,
        view-put now first to j c,
        view-put now (Database.get now db to).1 from j a,
        view-get now db to j,
        live_undated now db from b undated,
        live_undated now db to c also,
      )

module _ (r : Request) (s : Store) {xs : List String} {t : Option ℤ} {w : DatabaseValue}
    (held : view r.now s.db (get_param r 0) ≡ some (record { value = set xs; expired_at = t }))
    (target : or_new_set (view r.now s.db (get_param r 1)) ≡ w) where
  smove_first :
      smove r s
      ≡ smove_of
          (get_param r 0)
          (get_param r 1)
          (get_param r 2)
          (record { value = set xs; expired_at = t })
          w
          (record s { db = (Database.get r.now s.db (get_param r 1)).1 })
  unfolding smove
  smove_first =
      rw (get_hit r.now s.db (get_param r 0) _ held, get-view r.now s.db (get_param r 1), target)
        refl

module _ (r : Request) (s : Store) {xs : List String} {t : Option ℤ} (ys : List String)
    (u : Option ℤ)
    (held : view r.now s.db (get_param r 0) ≡ some (record { value = set xs; expired_at = t }))
    (target : HoldsSet (view r.now s.db (get_param r 1)) ys u)
    (differ : (get_param r 0 == get_param r 1) ≡ false)
    (present : has (get_param r 2) xs ≡ true) where
  smove_reply : (smove r s).0 ≡ returns (count 1)
  unfolding smove_of move_into get_set
  smove_reply = elim (Bool-cases (has (get_param r 2) ys)) [
    | inl there ↦
        rw
          (
            smove_first r s held
                (or_new_set-HoldsSet (view r.now s.db (get_param r 1)) ys u target),
            present,
            differ,
            there,
          )
          refl
    | inr fresh ↦
        rw
          (
            smove_first r s held
                (or_new_set-HoldsSet (view r.now s.db (get_param r 1)) ys u target),
            present,
            differ,
            fresh,
          )
          refl
  ]

  view-smove :
      (j : String)
      → view r.now (smove r s).1.db j ≡ (
          if get_param r 0 == j
          then some (of_payload (set (delete (get_param r 2) xs)))
          else if get_param r 1 == j
          then taken (get_param r 2) ys (view r.now s.db (get_param r 1))
          else view r.now s.db j)
  unfolding smove_of move_into get_set
  view-smove j = elim (Bool-cases (has (get_param r 2) ys)) [
    | inl there ↦
        rw
          (
            smove_first r s held
                (or_new_set-HoldsSet (view r.now s.db (get_param r 1)) ys u target),
            present,
            differ,
            there,
          )
          (put_back r.now s.db (get_param r 0) (get_param r 1) j _
            (of_payload (set (delete (get_param r 2) xs))) refl)
    | inr fresh ↦
        rw
          (
            smove_first r s held
                (or_new_set-HoldsSet (view r.now s.db (get_param r 1)) ys u target),
            present,
            differ,
            fresh,
          )
          (put_both r.now s.db (get_param r 0) (get_param r 1) j _
            (of_payload (set (delete (get_param r 2) xs))) refl
            (of_payload (set (ys ++ get_param r 2 ∷ []))) refl)
  ]

  -- SMOVE of a member of the set at one key to another key, which holds a set or nothing: it
  -- replies 1, takes the member out of the first set, and puts it into the second one if it is
  -- not there. The first key loses its deadline, and so does the second one if it is written,
  -- against the comment on EXPIRE. No other key changes.
  pub smove_lem :
      IsSetList xs
      → ((smove r s).0 ≡ returns (count 1))
        × ((j : String)
            → view r.now (smove r s).1.db j ≡ (
                if get_param r 0 == j
                then some (of_payload (set (delete (get_param r 2) xs)))
                else if get_param r 1 == j
                then taken (get_param r 2) ys (view r.now s.db (get_param r 1))
                else view r.now s.db j))
        × ((m : String)
            → has m (delete (get_param r 2) xs) ≡ (if get_param r 2 == m then false else has m xs))
        × ((m : String) → has m (ys ++ get_param r 2 ∷ []) ≡ (has m ys || get_param r 2 == m))
  smove_lem distinct = (
    smove_reply,
    view-smove,
    λ m. has-delete m (get_param r 2) xs distinct,
    λ m. has-append m (get_param r 2) ys,
  )

module _ (r : Request) (s : Store) {xs : List String} {t : Option ℤ} {w : DatabaseValue}
    (held : view r.now s.db (get_param r 0) ≡ some (record { value = set xs; expired_at = t }))
    (target : view r.now s.db (get_param r 1) ≡ some w)
    (differ : (get_param r 0 == get_param r 1) ≡ false)
    (present : has (get_param r 2) xs ≡ true) where
  -- SMOVE of a member of the set at one key to another key that holds a value of another type
  -- throws, and the member is gone from the first set all the same; no other key changes.
  pub smove_loses :
      get_set w ≡ throws wrong_type
      → ((smove r s).0 ≡ throws wrong_type)
        × Leaves r.now s.db
            (smove r s).1.db
            (get_param r 0)
            (some (record { value = set (delete (get_param r 2) xs); expired_at = t }))
  unfolding smove_of get_set
  smove_loses wrong =
      let first = smove_first r s held (ap or_new_set target) in
      (
        rw (first, present, differ, wrong) refl,
        λ j.
            rw (first, present, differ, wrong)
              (view-put r.now (Database.get r.now s.db (get_param r 1)).1 (get_param r 0) j
                  (record { value = set (delete (get_param r 2) xs); expired_at = t })
                ∙ rw
                    (
                      live_same r.now s.db (get_param r 0) _
                          (record { value = set (delete (get_param r 2) xs); expired_at = t }) held
                          refl,
                      view-get r.now s.db (get_param r 1) j,
                    )
                    refl),
      )
