-- ===== src/ListCommands/Push/Laws.antt =====
-- What LPUSH and RPUSH do to a list, and to a key of another type.
use unit_redis_ness.Prelude.{
  ℤ, ℕ, ◌+◌, ◌-◌, String, ◌≡◌, refl, Option, none, some, List, [], ◌∷◌, ◌++◌, length, drop, reverse,
  arith, append_assoc, append-nil, ap, ◌∙◌, length-append, length-reverse, Option-cases, inl, inr,
}
use mathlib.Core.List.{reverse-cons}
use unit_redis_ness.Outcome.{returns, throws}
use unit_redis_ness.DatabaseValue.{DatabaseValue, list, get_list}
use unit_redis_ness.Database.{Database}
use unit_redis_ness.Database.Laws.{
  view, Leaves, SameView, live, view-get, get-view, Leaves-put, live_same, live_undated,
}
use unit_redis_ness.Token.{count}
use unit_redis_ness.Command.{Request, get_param, Store, repeated, key_event}
use unit_redis_ness.ListCommands.Push.{or_new_list, lpush, rpush, unshift_all, push_all}

unshift_all-append : (es xs : List String) → unshift_all es xs ≡ reverse es ++ xs
unfolding unshift_all
unshift_all-append [] xs = refl
unshift_all-append (e ∷ es) xs =
    unshift_all-append es (e ∷ xs) ∙ simp (reverse-cons e es, append_assoc)

push_all-append : (es xs : List String) → push_all es xs ≡ xs ++ es
unfolding push_all
push_all-append [] xs = simp append-nil
push_all-append (e ∷ es) xs = simp (push_all-append es (xs ++ e ∷ []), append_assoc)

-- The key holds the list with the deadline, or nothing, which counts as an empty list without one.
unfoldable pub HoldsList : Option DatabaseValue → List String → Option ℤ → Type 0
HoldsList none xs t = (xs ≡ []) × (t ≡ none)
HoldsList (some v) xs t = v ≡ record { value = list xs; expired_at = t }

pub or_new_list-HoldsList :
    (o : Option DatabaseValue) (xs : List String) (t : Option ℤ)
    → HoldsList o xs t
    → or_new_list o ≡ record { value = list xs; expired_at = t }
unfolding HoldsList
or_new_list-HoldsList none xs t h = rw (h.0, h.1) refl
or_new_list-HoldsList (some v) xs t h = h

-- A live list, or the new one, is live whatever elements it gets.
pub live_or_new :
    (now : ℕ) (db : Database) (key : String) (xs ys : List String) (t : Option ℤ)
    → HoldsList (view now db key) xs t
    → live now (some (record { value = list ys; expired_at = t }))
      ≡ some (record { value = list ys; expired_at = t })
live_or_new now db key xs ys t holds =
    let h = or_new_list-HoldsList (view now db key) xs t holds in
    elim (Option-cases (view now db key)) [
      | inl absent ↦ live_undated now db key _ (ground arith)
      | inr (v, e) ↦ live_same now db key v _ e (ground arith)
    ]

module _ (r : Request) (s : Store) (xs : List String) (t : Option ℤ)
    (held : HoldsList (view r.now s.db (get_param r 0)) xs t) where
  -- LPUSH at a key that holds a list or nothing puts its elements before the list, the last one
  -- first, keeps the deadline of the key, replies with the new length, emits one event for each
  -- element and touches no other key.
  pub lpush_lem :
      ((lpush r s).0 ≡ returns (count (length xs + length (drop 1 r.params))))
      × Leaves r.now s.db
          (lpush r s).1.db
          (get_param r 0)
          (some (record { value = list (reverse (drop 1 r.params) ++ xs); expired_at = t }))
      × ((lpush r s).1.emitted
          ≡ s.emitted
            ++ repeated (length r.params - 1) (key_event r.current_db "lpush" (get_param r 0)))
  unfolding lpush get_list
  lpush_lem =
      rw
        (
          get-view r.now s.db (get_param r 0),
          or_new_list-HoldsList (view r.now s.db (get_param r 0)) xs t held,
          unshift_all-append,
        )
        (
          ap (λ n. returns (count n))
              (omega (
                arith,
                length-append (reverse (drop 1 r.params)) xs,
                length-reverse (drop 1 r.params),
              )),
          Leaves-put r.now s.db (get_param r 0) _
              (live_or_new r.now s.db (get_param r 0) xs _ t held),
          refl,
        )

  -- RPUSH at a key that holds a list or nothing puts its elements behind the list, in order,
  -- keeps the deadline of the key, replies with the new length, emits one event for each element
  -- and touches no other key.
  pub rpush_lem :
      ((rpush r s).0 ≡ returns (count (length xs + length (drop 1 r.params))))
      × Leaves r.now s.db
          (rpush r s).1.db
          (get_param r 0)
          (some (record { value = list (xs ++ drop 1 r.params); expired_at = t }))
      × ((rpush r s).1.emitted
          ≡ s.emitted
            ++ repeated (length r.params - 1) (key_event r.current_db "rpush" (get_param r 0)))
  unfolding rpush get_list
  rpush_lem =
      rw
        (
          get-view r.now s.db (get_param r 0),
          or_new_list-HoldsList (view r.now s.db (get_param r 0)) xs t held,
          push_all-append,
        )
        (
          ap (λ n. returns (count n)) (omega (arith, length-append xs (drop 1 r.params))),
          Leaves-put r.now s.db (get_param r 0) _
              (live_or_new r.now s.db (get_param r 0) xs _ t held),
          refl,
        )

-- LPUSH at a key of another type throws, changes nothing and emits nothing.
pub lpush_throws :
    (r : Request) (s : Store) {m : String}
    → get_list (or_new_list (view r.now s.db (get_param r 0))) ≡ throws m
    → ((lpush r s).0 ≡ throws m)
      × SameView r.now s.db (lpush r s).1.db
      × ((lpush r s).1.emitted ≡ s.emitted)
unfolding lpush
lpush_throws r s h =
    rw (get-view r.now s.db (get_param r 0), h) (refl, view-get r.now s.db (get_param r 0), refl)
