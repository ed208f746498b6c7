-- ===== src/DatabaseCommands/Move.antt =====
-- SELECT, and MOVE between two databases.
use unit_redis_ness.Prelude.{
  ℕ, ◌<◌, ◌≡◌, ◌≢◌, refl, sym, true, false, none, some, String, ℤ, pos, negsuc, arith,
  if◌then◌else◌, ◌&&◌, ltb_ℤ, get_or,
}
use unit_redis_ness.Number.{Js, integer, same, less}
use unit_redis_ness.Outcome.{returns}
use unit_redis_ness.DatabaseValue.{DatabaseValue}
use unit_redis_ness.Database
use unit_redis_ness.Database.{Database}
use unit_redis_ness.Database.Laws.{
  view, Leaves, view-get, get-view, view-put, view-remove, view_live,
}
use unit_redis_ness.Token.{count, response_ok}
use unit_redis_ness.Session.{Call, set_current_db}
use unit_redis_ness.World.{World, get_database, put_database}
use unit_redis_ness.DatabaseCommands.Flush.{get-put_database}
use unit_redis_ness.DatabaseCommands.{select, move, out_of_range}

get_held :
    (now : ℕ) (db : Database) (key : String) (v : DatabaseValue)
    → view now db key ≡ some v
    → Database.get now db key ≡ (some v, db)
unfolding Database.get view
get_held now db key v held = ground arith

exists_absent :
    (now : ℕ) (db : Database) (key : String)
    → view now db key ≡ none
    → Database.exists now db key ≡ (false, (Database.get now db key).1)
unfolding Database.exists
exists_absent now db key absent = rw (get-view now db key, absent) refl

same_pos : (a b : ℕ) → a ≢ b → same (integer (pos a)) (integer (pos b)) ≡ false
same_pos a b h = ground arith

same_self : (a : ℕ) → same (integer (pos a)) (integer (pos a)) ≡ true
same_self a = ground arith

module _ {C : Type 0} (js : Js) (call : Call) where
  -- SELECT of an integer makes it the session's database and replies OK where it is one of 0 to
  -- 15; else the reply is the error, and nothing changes.
  pub select_lem :
      (z : ℤ) (w : World C)
      → js.number (get_or call.params 0 "") ≡ integer z
      → select js call w ≡ (
          if ltb_ℤ (negsuc 0) z && ltb_ℤ z (pos 16)
          then (
            returns response_ok,
            record w { session = record w.session { current_db = integer z } },
          )
          else (returns out_of_range, w))
  unfolding select set_current_db
  select_lem z w read = rw read (ground arith)

  -- The world after the moving: the key is put at the target and removed at the source.
  abbrev moved : ℕ → ℕ → String → DatabaseValue → Database → World C → World C
  moved c t key v db w =
      let w' = put_database (integer (pos t)) db w in
      let w'' =
        put_database (integer (pos t)) (Database.put (get_database (integer (pos t)) w') key v)
          w' in
      put_database (integer (pos c)) (Database.remove (get_database (integer (pos c)) w'') key).1
        w''

  module _ (c t : ℕ) (key : String) (v : DatabaseValue) (db : Database) (w : World C)
      (apart : c ≢ t) where
    moved_source :
        get_database (integer (pos c)) (moved c t key v db w)
        ≡ (Database.remove (get_database (integer (pos c)) w) key).1
    moved_source = simp (get-put_database, same_self, same_pos c t apart)

    moved_target : get_database (integer (pos t)) (moved c t key v db w) ≡ Database.put db key v
    moved_target = simp (get-put_database, same_self, same_pos t c (λ e. apart (sym e)))

    moved_other :
        (k : ℕ)
        → k ≢ c
        → k ≢ t
        → get_database (integer (pos k)) (moved c t key v db w) ≡ get_database (integer (pos k)) w
    moved_other k kc kt = simp (get-put_database, same_pos k c kc, same_pos k t kt)

  module _ (now : ℕ) (c t : ℕ) (v : DatabaseValue) (w : World C)
      (read : js.number (get_or call.params 1 "") ≡ integer (pos t)) (few : t < 16) (apart : c ≢ t)
      (elsewhere : same (integer (pos t)) w.session.current_db ≡ false)
      (held : view now (get_database (integer (pos c)) w) (get_or call.params 0 "") ≡ some v)
      (free : view now (get_database (integer (pos t)) w) (get_or call.params 0 "") ≡ none) where
    move_run :
        let key = get_or call.params 0 "" in
        move js now call (integer (pos c)) w ≡ (
          returns (count 1),
          moved c t key v
              (Database.get now (get_database (integer (pos t)) w) key).1
              (put_database (integer (pos c)) (get_database (integer (pos c)) w) w),
        )
    unfolding move
    move_run =
        let near : less (integer (pos 15)) (integer (pos t)) ≡ false = ground arith in
        let some_db : less (integer (pos t)) (integer (pos 0)) ≡ false = ground arith in
        rw
          (
            read,
            near,
            some_db,
            elsewhere,
            get_held now (get_database (integer (pos c)) w) (get_or call.params 0 "") v held,
            get-put_database (integer (pos c)) (integer (pos t)) (get_database (integer (pos c)) w)
                w,
            same_pos t c (λ e. apart (sym e)),
            exists_absent now (get_database (integer (pos t)) w) (get_or call.params 0 "") free,
          )
          refl

    -- MOVE of a key that database c holds to another database t of 0 to 15, which is not the
    -- session's and does not hold the key, replies 1: the key is then in t only, with its
    -- value and deadline, and no other key of any database changes.
    pub move_lem :
        let (o, w') = move js now call (integer (pos c)) w in
        (o ≡ returns (count 1))
        × Leaves now
            (get_database (integer (pos c)) w)
            (get_database (integer (pos c)) w')
            (get_or call.params 0 "")
            none
        × Leaves now
            (get_database (integer (pos t)) w)
            (get_database (integer (pos t)) w')
            (get_or call.params 0 "")
            (some v)
        × ((k : ℕ)
            → k ≢ c
            → k ≢ t
            → get_database (integer (pos k)) w' ≡ get_database (integer (pos k)) w)
    move_lem =
        let key = get_or call.params 0 "" in
        let source = get_database (integer (pos c)) w in
        let target = get_database (integer (pos t)) w in
        let w' = put_database (integer (pos c)) source w in
        let db = (Database.get now target key).1 in
        rw move_run (
          refl,
          λ j.
              rw
                (
                  moved_source c t key v db w' apart,
                  get-put_database (integer (pos c)) (integer (pos c)) source w,
                  same_self c,
                )
                (view-remove now source key j),
          λ j.
              rw
                (
                  moved_target c t key v db w' apart,
                  view-put now db key j v,
                  view-get now target key j,
                  view_live now source key v held,
                )
                refl,
          λ k kc kt.
              rw
                (
                  moved_other c t key v db w' apart k kc kt,
                  get-put_database (integer (pos c)) (integer (pos k)) source w,
                  same_pos k c kc,
                )
                refl,
        )
