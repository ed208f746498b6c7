-- ===== src/ListCommands/Pop/Transfer.antt =====
-- RPOPLPUSH moves the last element of one list to the front of another, or rotates one list.
use unit_redis_ness.Prelude.{
  ℤ, String, ◌≡◌, refl, true, false, Option, some, List, [], ◌∷◌, ◌++◌, ◌==◌, if◌then◌else◌, eq_iff,
  eq_refl, ◌∙◌,
}
use unit_redis_ness.Outcome.{returns}
use unit_redis_ness.DatabaseValue.{list, get_list}
use unit_redis_ness.Database
use unit_redis_ness.Database.Laws.{
  view, Leaves, view-get, get-view, view-put, Leaves-put, live_same,
}
use unit_redis_ness.Token.{string}
use unit_redis_ness.Command.{Request, get_param, Store}
use unit_redis_ness.ListCommands.Push.Laws.{HoldsList, or_new_list-HoldsList, live_or_new}
use unit_redis_ness.ListCommands.Save.{saved, view-save_list}
use unit_redis_ness.ListCommands.Pop.{rpoplpush}
use unit_redis_ness.ListCommands.Pop.Laws.{pop-append}

module _ (r : Request) (s : Store) (x : String) (xs : List String) {t : Option ℤ} where
  -- RPOPLPUSH of a list with elements from a key to itself moves the last element to the head,
  -- replies with it, keeps the deadline, and changes no other key.
  pub rpoplpush_rotates :
      (get_param r 0 == get_param r 1) ≡ true
      → view r.now s.db (get_param r 0)
        ≡ some (record { value = list (xs ++ x ∷ []); expired_at = t })
      → ((rpoplpush r s).0 ≡ returns (string (some x)))
        × Leaves r.now s.db
            (rpoplpush r s).1.db
            (get_param r 0)
            (some (record { value = list (x ∷ xs); expired_at = t }))
  unfolding rpoplpush get_list
  rpoplpush_rotates same held =
      let e : get_param r 0 ≡ get_param r 1 = (eq_iff (get_param r 0) (get_param r 1)).0 same in
      rw
        (
          get-view r.now s.db (get_param r 0),
          held,
          get-view r.now _ (get_param r 1),
          ← e,
          view-get r.now s.db (get_param r 0) (get_param r 0),
          held,
          eq_refl,
          pop-append,
        )
        (
          refl,
          λ j.
              Leaves-put r.now (Database.get r.now s.db (get_param r 0)).1 (get_param r 0) _
                (live_same r.now s.db (get_param r 0) _ _ held refl) j
              ∙ rw (view-get r.now s.db (get_param r 0) j),
        )

  -- RPOPLPUSH from a list to another key, which holds a list or nothing, takes the last element
  -- off the first and puts it at the head of the second, replies with it, removes the first key
  -- with its last element, keeps both deadlines, and changes no other key.
  pub rpoplpush_moves :
      (ys : List String) (u : Option ℤ)
      → (get_param r 0 == get_param r 1) ≡ false
      → view r.now s.db (get_param r 0)
        ≡ some (record { value = list (xs ++ x ∷ []); expired_at = t })
      → HoldsList (view r.now s.db (get_param r 1)) ys u
      → ((rpoplpush r s).0 ≡ returns (string (some x)))
        × ((j : String)
            → view r.now (rpoplpush r s).1.db j ≡ (
                if get_param r 0 == j
                then saved xs t
                else if get_param r 1 == j
                then some (record { value = list (x ∷ ys); expired_at = u })
                else view r.now s.db j))
  unfolding rpoplpush get_list
  rpoplpush_moves ys u differ held target =
      rw
        (
          get-view r.now s.db (get_param r 0),
          held,
          get-view r.now _ (get_param r 1),
          view-get r.now s.db (get_param r 0) (get_param r 1),
          or_new_list-HoldsList (view r.now s.db (get_param r 1)) ys u target,
          differ,
          pop-append,
        )
        (
          refl,
          λ j.
              view-save_list r.now _ (get_param r 0)
                (record { value = list (xs ++ x ∷ []); expired_at = t }) xs j
                (λ w. live_same r.now s.db (get_param r 0) _ w held)
              ∙ rw (
                view-put r.now
                    (Database.get r.now (Database.get r.now s.db (get_param r 0)).1
                      (get_param r 1)).1
                    (get_param r 1) j (record { value = list (x ∷ ys); expired_at = u }),
                live_or_new r.now s.db (get_param r 1) ys (x ∷ ys) u target,
                view-get r.now (Database.get r.now s.db (get_param r 0)).1 (get_param r 1) j,
                view-get r.now s.db (get_param r 0) j,
              ),
        )
