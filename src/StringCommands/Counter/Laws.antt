-- ===== src/StringCommands/Counter/Laws.antt =====
-- INCR, DECR, INCRBY and DECRBY on integers, and on a key with a deadline.
use unit_redis_ness.Prelude.{
  ℕ, ◌+◌, ◌<◌, ◌≤◌, ◌≡◌, refl, String, ℤ, pos, negsuc, abs_ℕ, true, false, none, some, ltb, leb,
  ◌+ℤ◌, ◌*ℤ◌, lt→ltb, arith, eq_refl,
}
use unit_redis_ness.Outcome.{returns}
use unit_redis_ness.Number.{Js, JsLaws, integer, max_safe}
use unit_redis_ness.DatabaseValue.{Payload, string, get_string}
use unit_redis_ness.Database.{has_lapsed}
use unit_redis_ness.Database.Laws.{
  view, Leaves, SameView, view-get, get-view, view-put, Leaves-put, live_undated,
}
use unit_redis_ness.Token.{number}
use unit_redis_ness.Command.{Request, get_param, Store}
use unit_redis_ness.StringCommands.Counter.{incr, incrby, would_overflow, new_deadline}

-- The time left, read as an instant, lies in the past.
lapses_at_once :
    (deadline now : ℕ) (p q : Payload)
    → now < deadline
    → deadline < now + now
    → has_lapsed now (record {
      value = q;
      expired_at = new_deadline (record { value = p; expired_at = some (pos deadline) }) now;
    })
      ≡ true
unfolding has_lapsed new_deadline
lapses_at_once deadline now p q later soon = ground arith

module _ (js : Js) (laws : JsLaws js) (r : Request) (s : Store) (x : String) (z : ℤ)
    (read : js.number x ≡ integer z) where
  module _
      (held : view r.now s.db (get_param r 0)
        ≡ some (record { value = string x; expired_at = none })) where
    -- INCR (sign 1) and DECR (sign -1) of an integer of magnitude below the greatest safe one,
    -- without a deadline: the reply is the sum, the key holds its text without a deadline, and
    -- no other key changes.
    pub incr_lem :
        (sign : ℤ)
        → abs_ℕ sign ≡ 1
        → abs_ℕ z < max_safe
        → ((incr js sign r s).0 ≡ returns (number (integer (z +ℤ sign))))
          × Leaves r.now s.db
              (incr js sign r s).1.db
              (get_param r 0)
              (some (record { value = string (js.print (integer (z +ℤ sign))); expired_at = none }))
    unfolding incr get_string new_deadline
    incr_lem sign unit safe =
        let bound : abs_ℕ (z +ℤ sign) ≤ max_safe = unfold ◌+ℤ◌ in ground arith in
        rw
          (
            get-view r.now s.db (get_param r 0),
            held,
            read,
            lt→ltb (abs_ℕ z) max_safe safe,
            laws.add-integer z sign bound,
            laws.number-print (z +ℤ sign) bound,
          )
          (
            refl,
            Leaves-put r.now s.db (get_param r 0) _
                (live_undated r.now s.db (get_param r 0) _ refl),
          )

    -- INCR and DECR of an integer at or beyond the ends of the safe range, without a deadline,
    -- reply with the overflow error and change nothing.
    pub incr_refuses :
        (sign : ℤ)
        → max_safe ≤ abs_ℕ z
        → ((incr js sign r s).0 ≡ returns would_overflow)
          × SameView r.now s.db (incr js sign r s).1.db
    unfolding incr get_string
    incr_refuses sign far =
        let e : ltb (abs_ℕ z) max_safe ≡ false = ground arith in
        rw (get-view r.now s.db (get_param r 0), held, read, e)
          (refl, view-get r.now s.db (get_param r 0))

    -- INCRBY (sign 1) and DECRBY (sign -1) of an integer without a deadline by an integer,
    -- where the product, the tested sum and the result are safe integers: the reply is the
    -- result, the key holds its text without a deadline, and no other key changes.
    pub incrby_lem :
        (sign n : ℤ)
        → js.number (get_param r 1) ≡ integer n
        → abs_ℕ (sign *ℤ n) ≤ max_safe
        → abs_ℕ (z +ℤ n) ≤ max_safe
        → abs_ℕ (z +ℤ sign *ℤ n) ≤ max_safe
        → ((incrby js sign r s).0 ≡ returns (number (integer (z +ℤ sign *ℤ n))))
          × Leaves r.now s.db (incrby js sign r s).1.db (get_param r 0) (
              some (record {
                value = string (js.print (integer (z +ℤ sign *ℤ n)));
                expired_at = none;
              }))
    unfolding incrby get_string new_deadline
    incrby_lem sign n by product sum result =
        let e : leb (abs_ℕ (z +ℤ n)) max_safe ≡ true = ground arith in
        rw
          (
            get-view r.now s.db (get_param r 0),
            held,
            read,
            by,
            laws.mul-integer sign n product,
            laws.add-integer z n sum,
            e,
            laws.add-integer z (sign *ℤ n) result,
            laws.number-print (z +ℤ sign *ℤ n) result,
          )
          (
            refl,
            Leaves-put r.now s.db (get_param r 0) _
                (live_undated r.now s.db (get_param r 0) _ refl),
          )

    -- DECRBY tests the sum with its argument and stores the difference: it refuses to lower the
    -- greatest safe integer by one.
    pub decrby_refuses :
        z ≡ pos max_safe
        → js.number (get_param r 1) ≡ integer (pos 1)
        → js.add (integer z) (integer (pos 1)) ≡ integer (pos (max_safe + 1))
        → (incrby js (negsuc 0) r s).0 ≡ returns would_overflow
    unfolding incrby get_string
    decrby_refuses top one sum = rw (get-view r.now s.db (get_param r 0), held, read, one, sum)

  -- INCR and DECR of an integer in the safe range at a key with a deadline that is ahead, and
  -- less than twice the clock: the time that is left becomes the new deadline, so the key holds
  -- nothing at once.
  pub incr_lapses :
      (sign : ℤ) (deadline : ℕ)
      → abs_ℕ z < max_safe
      → view r.now s.db (get_param r 0)
        ≡ some (record { value = string x; expired_at = some (pos deadline) })
      → r.now < deadline
      → deadline < r.now + r.now
      → view r.now (incr js sign r s).1.db (get_param r 0) ≡ none
  unfolding incr get_string
  incr_lapses sign deadline safe held later soon = rw (
    get-view r.now s.db (get_param r 0),
    held,
    read,
    lt→ltb (abs_ℕ z) max_safe safe,
    view-put,
    eq_refl,
    lapses_at_once deadline r.now (string x) (string (js.print (js.add (integer z) (integer sign))))
        later soon,
  )
