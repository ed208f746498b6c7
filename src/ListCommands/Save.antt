-- ===== src/ListCommands/Save.antt =====
-- The end of the commands that shorten a list (lpop, rpop, rpoplpush, ltrim, lrem): an array with
-- elements is put back, and the key of an empty one is removed.
pub mod Soundness
use unit_redis_ness.Prelude.{
  ℕ, ℤ, String, ◌≡◌, refl, Option, none, some, List, [], ◌∷◌, ◌==◌, if◌then◌else◌,
}
use unit_redis_ness.Outcome.{returns}
use unit_redis_ness.DatabaseValue.{DatabaseValue, list}
use unit_redis_ness.Database
use unit_redis_ness.Database.{Database}
use unit_redis_ness.Database.Laws.{
  view, live, view-remove, view-put, Leaves, Leaves-put, Leaves-remove, live_same,
}
use unit_redis_ness.Command.{Command}

-- `if (list.length > 0) db.put(key, list) else db.remove(key)`
pub save_list : Database → String → DatabaseValue → List String → Database
save_list db key v [] = (Database.remove db key).1
save_list db key v (x ∷ xs) = Database.put db key (record v { value = list (x ∷ xs) })

abbrev pub save : String → DatabaseValue → List String → Command (Unit {0})
save key v xs s = (returns tt, record s { db = save_list s.db key v xs })

-- What the key holds afterwards.
abbrev pub saved : List String → Option ℤ → Option DatabaseValue
saved [] t = none
saved (x ∷ xs) t = some (record { value = list (x ∷ xs); expired_at = t })

module _ (now : ℕ) (db : Database) (key : String) where
  pub view-save_list :
      (v : DatabaseValue) (xs : List String) (j : String)
      → ((w : DatabaseValue) → w.expired_at ≡ v.expired_at → live now (some w) ≡ some w)
      → view now (save_list db key v xs) j
        ≡ (if key == j then saved xs v.expired_at else view now db j)
  unfolding save_list
  view-save_list v [] j alive = view-remove now db key j
  view-save_list v (x ∷ xs) j alive = rw (
    view-put now db key j (record v { value = list (x ∷ xs) }),
    alive (record v { value = list (x ∷ xs) }) refl,
  )

  pub Leaves-save_list :
      (v : DatabaseValue) (xs : List String)
      → view now db key ≡ some v
      → Leaves now db (save_list (Database.get now db key).1 key v xs) key (saved xs v.expired_at)
  unfolding save_list
  Leaves-save_list v [] held = Leaves-remove now db key
  Leaves-save_list v (x ∷ xs) held = Leaves-put now db key _ (live_same now db key v _ held refl)
