-- ===== src/SetCommands/Several/Laws.antt =====
-- SDIFF against sets as predicates, and what the loops over several keys gather.
use unit_redis_ness.Prelude.{
  ℕ, String, ◌≡◌, refl, ap, ◌∙◌, Bool, false, not, ◌&&◌, ◌||◌, Option, none, some, List, [], ◌∷◌,
  drop, arith, eq_iff, Bool-cases, inl, inr, ℤ,
}
use unit_redis_ness.Outcome.{returns}
use unit_redis_ness.DatabaseValue.{DatabaseValue, Payload, string, list, set, hash, zset, get_set}
use unit_redis_ness.Database
use unit_redis_ness.Database.{Database}
use unit_redis_ness.Database.Laws.{view, SameView, get-view, view-get, get_hit, exists_hit}
use unit_redis_ness.Token.{array, texts}
use unit_redis_ness.Command.{Request, get_param, Store}
use unit_redis_ness.SetCommands.{has}
use unit_redis_ness.SetCommands.Laws.{IsSetList, has-add_each, add_each-IsSetList}
use unit_redis_ness.SetCommands.Several.{as_set, gather, gather_all, minus, sdiff, sdiff_of}

-- The members of a payload: none, unless it is a set.
unfoldable pub members_of : Payload → List String
members_of (set ms) = ms
members_of (string s) = []
members_of (list xs) = []
members_of (hash h) = []
members_of (zset z) = []

unfoldable pub is_in : Option DatabaseValue → String → Bool
unfolding members_of
is_in none m = false
is_in (some v) m = has m (members_of v.value)

-- The key holds a set, and the member is in it.
unfoldable pub is_member : ℕ → Database → String → String → Bool
unfolding is_in
is_member now db key m = is_in (view now db key) m

-- The member is in the set of one of the keys.
unfoldable pub in_some : ℕ → Database → List String → String → Bool
unfolding is_member
in_some now db [] m = false
in_some now db (key ∷ keys) m = is_member now db key m || in_some now db keys m

pub in_some-get :
    (now : ℕ) (db : Database) (key : String) (keys : List String) (m : String)
    → in_some now (Database.get now db key).1 keys m ≡ in_some now db keys m
unfolding in_some
in_some-get now db key [] m = refl
in_some-get now db key (k ∷ keys) m = rw (view-get now db key k, in_some-get now db key keys m) refl

-- The members that SDIFF leaves out.
unfoldable pub gathered : ℕ → Database → List String → List String → List String
gathered now db [] all = all
gathered now db (key ∷ keys) all = gathered now db keys (gather (as_set (view now db key)) all)

pub gathered-get :
    (now : ℕ) (db : Database) (key : String) (keys all : List String)
    → gathered now (Database.get now db key).1 keys all ≡ gathered now db keys all
unfolding gathered
gathered-get now db key [] all = refl
gathered-get now db key (k ∷ keys) all =
    rw (view-get now db key k) (gathered-get now db key keys (gather (as_set (view now db k)) all))

has-gather_payload :
    (p : Payload) (t : Option ℤ) (all : List String) (m : String)
    → has m (gather (as_set (some (record { value = p; expired_at = t }))) all)
      ≡ (has m all || has m (members_of p))
unfolding members_of has
has-gather_payload (set ms) t all m = has-add_each m ms all
has-gather_payload p t all m = ground arith

has-gather :
    (o : Option DatabaseValue) (all : List String) (m : String)
    → has m (gather (as_set o) all) ≡ (has m all || is_in o m)
unfolding is_in
has-gather none all m = ground arith
has-gather (some v) all m = has-gather_payload v.value v.expired_at all m

gather-IsSetList :
    (o : Option (List String)) (all : List String) → IsSetList all → IsSetList (gather o all)
gather-IsSetList none all h = h
gather-IsSetList (some ms) all h = add_each-IsSetList ms all h

pub has-gathered :
    (now : ℕ) (db : Database) (keys all : List String) (m : String)
    → has m (gathered now db keys all) ≡ (has m all || in_some now db keys m)
unfolding gathered in_some
has-gathered now db [] all m = ground arith
has-gathered now db (key ∷ keys) all m =
    rw
      (
        has-gathered now db keys (gather (as_set (view now db key)) all) m,
        has-gather (view now db key) all m,
      )
      (ground arith)

gather_all-gathered :
    (r : Request) (keys all : List String) (s : Store)
    → ((gather_all r keys all s).0 ≡ returns (gathered r.now s.db keys all))
      × SameView r.now s.db (gather_all r keys all s).1.db
unfolding gather_all gathered
gather_all-gathered r [] all s = (refl, λ j. refl)
gather_all-gathered r (key ∷ keys) all s =
    let here = record s { db = (Database.get r.now s.db key).1 } in
    let next = gather (as_set (view r.now s.db key)) all in
    let (reply, same) = gather_all-gathered r keys next here in
    rw (get-view r.now s.db key) (
      reply ∙ ap returns (gathered-get r.now s.db key keys next),
      λ j. same j ∙ view-get r.now s.db key j,
    )

pub gathered-IsSetList :
    (now : ℕ) (db : Database) (keys all : List String)
    → IsSetList all
    → IsSetList (gathered now db keys all)
unfolding gathered
gathered-IsSetList now db [] all h = h
gathered-IsSetList now db (key ∷ keys) all h =
    gathered-IsSetList now db keys (gather (as_set (view now db key)) all)
      (gather-IsSetList (as_set (view now db key)) all h)

has-minus :
    (m : String) (xs out : List String) → has m (minus xs out) ≡ (has m xs && not (has m out))
unfolding has minus
has-minus m [] out = ground arith
has-minus m (x ∷ xs) out = ground (arith, has-minus m xs out, eq_iff x m)

minus-IsSetList : (xs out : List String) → IsSetList xs → IsSetList (minus xs out)
unfolding minus
minus-IsSetList [] out s = tt
minus-IsSetList (x ∷ xs) out s = elim (Bool-cases (has x out)) [
  | inl gone ↦ rw gone (minus-IsSetList xs out s.1)
  | inr stays ↦ rw stays (has-minus x xs out ∙ ground (arith, s.0), minus-IsSetList xs out s.1)
]

module _ (r : Request) (s : Store) {xs : List String} {t : Option ℤ}
    (held : view r.now s.db (get_param r 0) ≡ some (record { value = set xs; expired_at = t }))
    (distinct : IsSetList xs) where
  sdiff_first : sdiff r s ≡ sdiff_of r (some (record { value = set xs; expired_at = t })) s
  unfolding sdiff
  sdiff_first =
      rw (exists_hit r.now s.db (get_param r 0) _ held, get_hit r.now s.db (get_param r 0) _ held)
        refl

  -- SDIFF from a key that holds a set replies with the members of it that are in the set of none
  -- of the other keys, each once, where a key that holds no set counts as empty; it changes
  -- nothing.
  pub sdiff_lem :
      (ys : List String) × IsSetList ys
      × ((m : String) → has m ys ≡ (has m xs && not (in_some r.now s.db (drop 1 r.params) m)))
      × ((sdiff r s).0 ≡ returns (array (texts ys)))
      × SameView r.now s.db (sdiff r s).1.db
  unfolding sdiff_of get_set has
  sdiff_lem =
      let keys = drop 1 r.params in
      let out = gathered r.now s.db keys [] in
      let (reply, same) = gather_all-gathered r keys [] s in
      (
        minus xs out,
        minus-IsSetList xs out distinct,
        λ m. has-minus m xs out ∙ rw (has-gathered r.now s.db keys [] m) refl,
        rw (sdiff_first, reply) refl,
        rw (sdiff_first, reply) same,
      )
