-- ===== src/ListCommands/Pop/Laws.antt =====
-- What LLEN, LPOP and RPOP do to a live list, and to an absent key.
use unit_redis_ness.Prelude.{ℤ, String, ◌≡◌, refl, Option, some, List, [], ◌∷◌, ◌++◌}
use unit_redis_ness.Outcome.{returns}
use unit_redis_ness.DatabaseValue.{list, get_list}
use unit_redis_ness.Database.Laws.{view, Leaves, get-view}
use unit_redis_ness.Token.{string}
use unit_redis_ness.Command.{Request, get_param, Store}
use unit_redis_ness.ListCommands.Pop.{lpop, rpop, pop, pop_events}
use unit_redis_ness.ListCommands.Save.{saved, Leaves-save_list}

-- `pop` takes the last element.
pub pop-append : (xs : List String) (x : String) → pop (xs ++ x ∷ []) ≡ (some x, xs)
pop-append [] x = refl
pop-append (y ∷ []) x = refl
pop-append (y ∷ z ∷ xs) x = rw (pop-append (z ∷ xs) x)

module _ (r : Request) (s : Store) (x : String) (xs : List String) {t : Option ℤ} where
  -- LPOP of a list with elements replies with the first one and takes it off, removes the key
  -- with the last one, keeps the deadline, and touches no other key.
  pub lpop_lem :
      view r.now s.db (get_param r 0) ≡ some (record { value = list (x ∷ xs); expired_at = t })
      → ((lpop r s).0 ≡ returns (string (some x)))
        × Leaves r.now s.db (lpop r s).1.db (get_param r 0) (saved xs t)
  unfolding lpop get_list
  lpop_lem held =
      rw (get-view r.now s.db (get_param r 0), held)
        (refl, Leaves-save_list r.now s.db (get_param r 0) _ xs held)

  -- RPOP of a list with elements replies with the last one and takes it off, removes the key
  -- with the last one, keeps the deadline, emits the event of the pop and, where the list is
  -- left empty, that of the removal, and touches no other key.
  pub rpop_lem :
      view r.now s.db (get_param r 0)
        ≡ some (record { value = list (xs ++ x ∷ []); expired_at = t })
      → ((rpop r s).0 ≡ returns (string (some x)))
        × Leaves r.now s.db (rpop r s).1.db (get_param r 0) (saved xs t)
        × ((rpop r s).1.emitted ≡ s.emitted ++ pop_events r.current_db (get_param r 0) xs)
  unfolding rpop get_list
  rpop_lem held =
      rw (get-view r.now s.db (get_param r 0), held, pop-append)
        (refl, Leaves-save_list r.now s.db (get_param r 0) _ xs held, refl)
