-- ===== src/StringCommands/Options/Laws.antt =====
-- SET: its options, and what it stores.
use unit_redis_ness.Prelude.{
  String, ◌≡◌, refl, Bool, true, false, not, ◌&&◌, Option, none, some, List, [], ◌∷◌, drop, ℤ,
  eqb_ℤ_iff, eq_refl, if◌then◌else◌, arith, Option-cases, Bool-cases, inl, inr,
}
use unit_redis_ness.Number.{Number, Js}
use unit_redis_ness.Outcome.{Outcome, returns, throws}
use unit_redis_ness.DatabaseValue.{DatabaseValue, string}
use unit_redis_ness.Database.Laws.{
  view, live, Leaves, SameView, view-get, view-put, Leaves-put-live, put_if_present_hit,
  put_if_present_miss, put_if_absent_hit, put_if_absent_miss,
}
use unit_redis_ness.Token.{response_ok}
use unit_redis_ness.Command.{Request, get_param, Store}
use unit_redis_ness.StringCommands.Options.{
  Parameters, no_parameters, SetOption, ex, px, nx, xx, other, seconds, take_option, and_then,
  same_deadline, with_flag, option_of, with_ttl, parse_options, deadline, is_saved, save_value, set,
}

-- Not both NX and XX.
abbrev pub IsConsistent : Parameters → Type 0
IsConsistent p = (p.if_exists && p.if_not_exists) ≡ false

with_flag-IsConsistent :
    (o : SetOption) (p q : Parameters) → IsConsistent p → with_flag o p ≡ returns q → IsConsistent q
unfolding with_flag
with_flag-IsConsistent nx p q c h = ground arith
with_flag-IsConsistent _ p q c h = ground arith

module _ (js : Js) where
  with_ttl-IsConsistent :
      (f : Number → Number) (a : String) (p q : Parameters)
      → IsConsistent p
      → with_ttl js f a p ≡ returns q
      → IsConsistent q
  unfolding with_ttl
  with_ttl-IsConsistent f a p q c h = ground arith

  and_then-returns :
      (m : Outcome Parameters) (f : Parameters → Outcome Parameters) {q : Parameters}
      → and_then m f ≡ returns q
      → (p : Parameters) × (m ≡ returns p) × (f p ≡ returns q)
  unfolding and_then
  and_then-returns (returns p) f h = (p, refl, h)
  and_then-returns (throws m) f h = cc

  abbrev Keeps : (Parameters → Outcome Parameters) → Type 0
  Keeps f = (p q : Parameters) → IsConsistent p → f p ≡ returns q → IsConsistent q

  take_option-Keeps :
      (o : SetOption) (a : String) (skip go : Parameters → Outcome Parameters)
      → Keeps skip
      → Keeps go
      → Keeps (λ p. take_option js o a p skip go)
  unfolding take_option
  take_option-Keeps ex a skip go hs hg p q c h =
      let (m, e, f) = and_then-returns (with_ttl js (seconds js) a p) skip h in
      hs m q (with_ttl-IsConsistent (seconds js) a p m c e) f
  take_option-Keeps px a skip go hs hg p q c h =
      let (m, e, f) = and_then-returns (with_ttl js (λ n. n) a p) skip h in
      hs m q (with_ttl-IsConsistent (λ n. n) a p m c e) f
  take_option-Keeps nx a skip go hs hg p q c h =
      let (m, e, f) = and_then-returns (with_flag nx p) go h in
      hg m q (with_flag-IsConsistent nx p m c e) f
  take_option-Keeps xx a skip go hs hg p q c h =
      let (m, e, f) = and_then-returns (with_flag xx p) go h in
      hg m q (with_flag-IsConsistent xx p m c e) f
  take_option-Keeps other a skip go hs hg p q c h =
      let (m, e, f) = and_then-returns (with_flag other p) go h in
      hg m q (with_flag-IsConsistent other p m c e) f

  returns-Keeps : Keeps returns
  returns-Keeps p q c h = ground arith

  -- The options of SET that parse never ask for both NX and XX, where those that were read
  -- before them do not.
  pub parse_options-IsConsistent : (os : List String) → Keeps (parse_options js os)
  unfolding parse_options
  parse_options-IsConsistent [] p q c h = ground arith
  parse_options-IsConsistent (o ∷ []) p q c h =
      take_option-Keeps (option_of js o) "" returns returns returns-Keeps returns-Keeps p q c h
  parse_options-IsConsistent (o ∷ a ∷ rest) p q c h =
      take_option-Keeps (option_of js o) a (parse_options js rest) (parse_options js (a ∷ rest))
        (parse_options-IsConsistent rest) (parse_options-IsConsistent (a ∷ rest)) p q c h

-- Whether SET may write, by its options and by what the key holds.
unfoldable pub may_write : Parameters → Option DatabaseValue → Bool
may_write p none = not p.if_exists
may_write p (some v) = if p.if_exists then true else not p.if_not_exists

same_deadline_refl : (t : Option ℤ) → same_deadline t t ≡ true
same_deadline_refl none = refl
same_deadline_refl (some a) = (eqb_ℤ_iff a a).1 refl

is_saved_self :
    (x : String) (t : Option ℤ)
    → is_saved (some (record { value = string x; expired_at = t })) x t ≡ true
unfolding is_saved
is_saved_self x t = rw (eq_refl, same_deadline_refl t)

module _ (r : Request) (s : Store) (p : Parameters) (v : DatabaseValue) where
  save_value_writes :
      may_write p (view r.now s.db (get_param r 0)) ≡ true
      → ((save_value r p v s).0 ≡ some v)
        × Leaves r.now s.db (save_value r p v s).1 (get_param r 0) (live r.now (some v))
  unfolding save_value may_write
  save_value_writes h = elim (Bool-cases p.if_exists) [
    | inl exists ↦ elim (Option-cases (view r.now s.db (get_param r 0))) [
      | inl absent ↦ absurd (ground arith)
      | inr (w, held) ↦
          rw (exists, put_if_present_hit r.now s.db (get_param r 0) v w held)
            (refl, Leaves-put-live r.now s.db (get_param r 0) v)
    ]
    | inr plain ↦ elim (Bool-cases p.if_not_exists) [
      | inl fresh ↦ elim (Option-cases (view r.now s.db (get_param r 0))) [
        | inl absent ↦
            rw (plain, fresh, put_if_absent_miss r.now s.db (get_param r 0) v absent)
              (refl, Leaves-put-live r.now s.db (get_param r 0) v)
        | inr (w, held) ↦ absurd (ground arith)
      ]
      | inr always ↦ rw (plain, always) (refl, λ j. view-put r.now s.db (get_param r 0) j v)
    ]
  ]

  save_value_declines :
      may_write p (view r.now s.db (get_param r 0)) ≡ false
      → SameView r.now s.db (save_value r p v s).1
  unfolding save_value may_write
  save_value_declines h = elim (Bool-cases p.if_exists) [
    | inl exists ↦ elim (Option-cases (view r.now s.db (get_param r 0))) [
      | inl absent ↦
          rw (exists, put_if_present_miss r.now s.db (get_param r 0) v absent)
            (view-get r.now s.db (get_param r 0))
      | inr (w, held) ↦ absurd (ground arith)
    ]
    | inr plain ↦ elim (Option-cases (view r.now s.db (get_param r 0))) [
      | inl absent ↦ absurd (ground arith)
      | inr (w, held) ↦
          let fresh : p.if_not_exists ≡ true = ground arith in
          rw (plain, fresh, put_if_absent_hit r.now s.db (get_param r 0) v w held)
            (view-get r.now s.db (get_param r 0))
    ]
  ]

-- The value that SET stores.
abbrev pub new_value : Request → Parameters → DatabaseValue
new_value r p = record { value = string (get_param r 1); expired_at = deadline r.now p.ttl }

module _ (js : Js) (r : Request) (s : Store) (p : Parameters)
    (parsed : parse_options js (drop 2 r.params) no_parameters ≡ returns p) where
  -- SET with options that parse, and that allow the write by what the key holds, replies OK: the
  -- key holds the text and the deadline (nothing, if the deadline has passed), and no other key
  -- changes.
  pub set_parsed_writes :
      may_write p (view r.now s.db (get_param r 0)) ≡ true
      → ((set js r s).0 ≡ returns response_ok)
        × Leaves r.now s.db (set js r s).1.db (get_param r 0) (live r.now (some (new_value r p)))
  unfolding set
  set_parsed_writes allowed =
      let (kept, stored) = save_value_writes r s p (new_value r p) allowed in
      rw parsed (rw (kept, is_saved_self (get_param r 1) (deadline r.now p.ttl)) refl, stored)

  -- SET with options that parse, and that forbid the write by what the key holds, changes
  -- nothing.
  pub set_declines :
      may_write p (view r.now s.db (get_param r 0)) ≡ false → SameView r.now s.db (set js r s).1.db
  unfolding set
  set_declines forbidden = rw parsed (save_value_declines r s p (new_value r p) forbidden)
