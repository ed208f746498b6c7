-- ===== src/Database/Laws.antt =====
-- What a database holds at an instant: the entries that have not lapsed.
use unit_redis_ness.Prelude.{
  ℕ, String, ◌≡◌, refl, true, Option, none, some, if◌then◌else◌, arith, eq_iff, ◌==◌,
}
use unit_redis_ness.Dictionary
use unit_redis_ness.Dictionary.{Dictionary, Truthy}
use unit_redis_ness.Dictionary.Laws.{get-remove, get-put}
use unit_redis_ness.DatabaseValue.{DatabaseValue}
use unit_redis_ness.Database.{
  Database, database_value_truthy, has_lapsed, put, remove, get, put_if_present, put_if_absent,
  exists,
}

abbrev pub live : ℕ → Option DatabaseValue → Option DatabaseValue
live now none = none
live now (some v) = if has_lapsed now v then none else some v

-- The value that a client can see at a key.
unfoldable pub view : ℕ → Database → String → Option DatabaseValue
view now db key = live now (Dictionary.get db key)

module _ (now : ℕ) (db : Database) (key : String) where
  pub get-view : (get now db key).0 ≡ view now db key
  unfolding get view
  get-view = ground arith

  -- The sweep of a lapsed entry shows nowhere.
  pub view-get : (j : String) → view now (get now db key).1 j ≡ view now db j
  unfolding get view
  view-get j = ground (arith, get-remove db key j (λ _. refl), eq_iff key j)

  pub view-remove :
      (j : String) → view now (remove db key).1 j ≡ (if key == j then none else view now db j)
  unfolding remove view
  view-remove j = ground (arith, get-remove db key j (λ _. refl), eq_iff key j)

  pub view-put :
      (j : String) (v : DatabaseValue)
      → view now (put db key v) j ≡ (if key == j then live now (some v) else view now db j)
  unfolding put view
  view-put j v = ground (arith, get-put db key j v)

-- Between two databases only the key changed, and it holds `v` now.
abbrev pub Leaves : ℕ → Database → Database → String → Option DatabaseValue → Type 0
Leaves now db db' key v = (j : String) → view now db' j ≡ (if key == j then v else view now db j)

abbrev pub SameView : ℕ → Database → Database → Type 0
SameView now db db' = (j : String) → view now db' j ≡ view now db j

module _ (now : ℕ) (db : Database) (key : String) where
  -- A value that takes the place of a live one, at the same deadline, is live.
  pub live_same :
      (v w : DatabaseValue)
      → view now db key ≡ some v
      → w.expired_at ≡ v.expired_at
      → live now (some w) ≡ some w
  unfolding view has_lapsed
  live_same v w h e = ground arith

  pub live_undated : (w : DatabaseValue) → w.expired_at ≡ none → live now (some w) ≡ some w
  unfolding has_lapsed
  live_undated w e = ground arith

  pub Leaves-put :
      (v : DatabaseValue)
      → live now (some v) ≡ some v
      → Leaves now db (put (get now db key).1 key v) key (some v)
  Leaves-put v h j = rw (view-put now (get now db key).1 key j v, h, view-get now db key j)

  pub Leaves-remove : Leaves now db (remove (get now db key).1 key).1 key none
  Leaves-remove j = rw (view-remove now (get now db key).1 key j, view-get now db key j)

  pub Leaves-put-live :
      (v : DatabaseValue) → Leaves now db (put (get now db key).1 key v) key (live now (some v))
  Leaves-put-live v j = rw (view-put now (get now db key).1 key j v, view-get now db key j)

  pub put_if_present_hit :
      (v w : DatabaseValue)
      → view now db key ≡ some w
      → put_if_present now db key v ≡ (some v, put (get now db key).1 key v)
  unfolding put_if_present
  put_if_present_hit v w held = rw (get-view now db key, held)

  pub put_if_present_miss :
      (v : DatabaseValue)
      → view now db key ≡ none
      → put_if_present now db key v ≡ (none, (get now db key).1)
  unfolding put_if_present
  put_if_present_miss v absent = rw (get-view now db key, absent)

  pub put_if_absent_hit :
      (v w : DatabaseValue)
      → view now db key ≡ some w
      → put_if_absent now db key v ≡ (some w, (get now db key).1)
  unfolding put_if_absent
  put_if_absent_hit v w held = rw (get-view now db key, held)

  pub put_if_absent_miss :
      (v : DatabaseValue)
      → view now db key ≡ none
      → put_if_absent now db key v ≡ (some v, put (get now db key).1 key v)
  unfolding put_if_absent
  put_if_absent_miss v absent = rw (get-view now db key, absent)

-- A live value is what the dictionary holds.
module _ (now : ℕ) (db : Database) (key : String) (v : DatabaseValue)
    (held : view now db key ≡ some v) where
  pub get_live : (get now db key).1 ≡ db
  unfolding get view
  get_live = ground arith

  pub remove_live : (remove db key).0 ≡ some v
  unfolding remove view Dictionary.remove
  remove_live = ground arith

  pub view_live : live now (some v) ≡ some v
  unfolding view
  view_live = ground arith

  pub get_hit : get now db key ≡ (some v, db)
  unfolding get view
  get_hit = ground arith

  pub exists_hit : exists now db key ≡ (true, db)
  unfolding exists
  exists_hit = rw get_hit refl
