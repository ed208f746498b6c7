-- ===== src/KeyCommands/Lifetime/Laws.antt =====
-- EXPIRE, PEXPIRE and TTL: how long a key lives.
use unit_redis_ness.Prelude.{
  ℕ, ◌+◌, ◌-◌, ◌/◌, eq_refl, ◌-ℤ◌, ◌*◌, ◌<◌, ◌≤◌, suc, String, ◌≡◌, refl, false, none, some, pos,
  negsuc, ltb, add-pos, mul-pos, if◌then◌else◌, arith, ◌==◌,
}
use unit_redis_ness.Number.{Number, Js, JsLaws, max_safe, integer, below_one, less}
use unit_redis_ness.Outcome.{returns}
use unit_redis_ness.DatabaseValue.{DatabaseValue, time_to_live_seconds, time_to_live}
use unit_redis_ness.Database
use unit_redis_ness.Database.{Database, has_lapsed}
use unit_redis_ness.Database.Laws.{view, live, get_live, get-view, view-put}
use unit_redis_ness.Token.{count, number}
use unit_redis_ness.Command.{Request, get_param, Store}
use unit_redis_ness.KeyCommands.Lifetime.{
  expire, pexpire, expire_of, new_instant, instant_after, ttl, ttl_of,
}

live_until :
    (later : ℕ) (v : DatabaseValue) (t : ℕ)
    → 0 < t
    → live later (some (record v { expired_at = some (pos t) }))
      ≡ (if ltb t later then none else some (record v { expired_at = some (pos t) }))
unfolding has_lapsed
live_until later v t h = ground arith

not_less : (n : ℕ) → less (integer (pos n)) (integer (pos n)) ≡ false
not_less n = ground arith

not_below_one : (n : ℕ) → below_one (integer (pos (suc n))) ≡ false
not_below_one n = ground arith

-- At an instant `later` the key holds `v` with the deadline `t`, unless that has passed; the other
-- keys are as they were.
abbrev pub LivesUntil : ℕ → Database → Database → String → DatabaseValue → ℕ → Type 0
LivesUntil later db db' key v t =
    (j : String)
    → view later db' j ≡ (
        if key == j
        then (if ltb t later then none else some (record v { expired_at = some (pos t) }))
        else view later db j)

module _ (js : Js) (r : Request) (s : Store) (v : DatabaseValue) (n : ℕ)
    (held : view r.now s.db (get_param r 0) ≡ some v)
    (read : js.number (get_param r 1) ≡ integer (pos (suc n)))
    (parsed : js.parse_int (get_param r 1) ≡ integer (pos (suc n))) where
  expire_of_lem :
      (scale : Number → Number) (m : ℕ)
      → scale (integer (pos (suc n))) ≡ integer (pos m)
      → 0 < m
      → (later : ℕ)
      → let done =
          expire_of js scale r
            (some v)
            (record s { db = (Database.get r.now s.db (get_param r 0)).1 }) in
        (done.0 ≡ returns (count 1)) × LivesUntil later s.db done.1.db (get_param r 0) v (r.now + m)
  unfolding expire_of new_instant instant_after
  expire_of_lem scale m e some_time later =
      rw
        (
          read,
          parsed,
          e,
          get_live r.now s.db (get_param r 0) v held,
          not_less (suc n),
          not_below_one n,
          add-pos r.now m,
        )
        (
          refl,
          λ j.
              rw
                (
                  view-put later s.db (get_param r 0) j
                      (record v { expired_at = some (pos (r.now + m)) }),
                  live_until later v (r.now + m) (omega arith),
                )
                refl,
        )

  -- PEXPIRE of a key that holds a value, by a positive number of milliseconds, replies 1: at
  -- every instant up to and including the deadline the key holds its value, with the deadline,
  -- afterwards nothing, and the other keys are as they were.
  pub pexpire_lem :
      (later : ℕ)
      → ((pexpire js r s).0 ≡ returns (count 1))
        × LivesUntil later s.db (pexpire js r s).1.db (get_param r 0) v (r.now + suc n)
  unfolding pexpire
  pexpire_lem later =
      rw (get-view r.now s.db (get_param r 0), held)
        (expire_of_lem (λ k. k) (suc n) refl (omega arith) later)

  -- EXPIRE of a key that holds a value, by a positive number of whole seconds whose milliseconds
  -- are a safe integer, replies 1: at every instant up to and including the deadline the key
  -- holds its value, with the deadline, afterwards nothing, and the other keys are as they were.
  pub expire_lem :
      JsLaws js
      → suc n * 1000 ≤ max_safe
      → (later : ℕ)
      → ((expire js r s).0 ≡ returns (count 1))
        × LivesUntil later s.db (expire js r s).1.db (get_param r 0) v (r.now + suc n * 1000)
  unfolding expire
  expire_lem laws safe later =
      rw (get-view r.now s.db (get_param r 0), held)
        (expire_of_lem (λ k. js.mul k (integer (pos 1000))) (suc n * 1000)
          (rw
            (
              laws.mul-integer (pos (suc n)) (pos 1000) (rw (mul-pos (suc n) 1000) (omega arith)),
              mul-pos (suc n) 1000,
            )
            refl)
          (omega arith) later)

ttl_of_dated :
    (later : ℕ) (v : DatabaseValue) (t : ℕ)
    → 0 < t
    → ttl_of later (if ltb t later then none else some (record v { expired_at = some (pos t) }))
      ≡ (if ltb t later then negsuc 1 else pos ((t - later) / 1000))
unfolding time_to_live_seconds time_to_live ◌-ℤ◌
ttl_of_dated later v t h = ground arith

module _ (js : Js) (laws : JsLaws js) (r q : Request) (s : Store) (v : DatabaseValue) (n : ℕ)
    (held : view r.now s.db (get_param r 0) ≡ some v)
    (read : js.number (get_param r 1) ≡ integer (pos (suc n)))
    (parsed : js.parse_int (get_param r 1) ≡ integer (pos (suc n))) (safe : suc n * 1000 ≤ max_safe)
    (same_key : get_param q 0 ≡ get_param r 0) where
  -- TTL at any instant after an EXPIRE that was given a positive number of seconds, with a safe
  -- number of milliseconds, on a key that held a value: the reply is the number of whole seconds
  -- left, or -2 once the deadline has passed.
  pub ttl-expire :
      (ttl q (expire js r s).1).0
      ≡ returns (
          number (
            integer (
              if ltb (r.now + suc n * 1000) q.now
              then negsuc 1
              else pos ((r.now + suc n * 1000 - q.now) / 1000))))
  unfolding ttl
  ttl-expire =
      let (_, lives) = expire_lem js r s v n held read parsed laws safe q.now in
      rw
        (
          same_key,
          get-view q.now (expire js r s).1.db (get_param r 0),
          lives (get_param r 0),
          eq_refl (get_param r 0),
          ttl_of_dated q.now v (r.now + suc n * 1000) (omega arith),
        )
        refl
