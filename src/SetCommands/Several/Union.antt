-- ===== src/SetCommands/Several/Union.antt =====
-- SUNION and SUNIONSTORE against sets as predicates.
use unit_redis_ness.Prelude.{
  ℕ, String, ◌≡◌, refl, ap, ◌∙◌, false, Option, none, some, List, [], ◌∷◌, ◌++◌, length, drop,
  arith, append-nil, append_assoc, sym, eq_iff,
}
use unit_redis_ness.Outcome.{returns}
use unit_redis_ness.DatabaseValue.{DatabaseValue, set, of_payload}
use unit_redis_ness.Database
use unit_redis_ness.Database.{Database}
use unit_redis_ness.Database.Laws.{
  view, SameView, get-view, view-get, view-put, live_undated, exists_hit, Leaves,
}
use unit_redis_ness.Token.{array, texts, count}
use unit_redis_ness.Command.{Request, get_param, Store, Command, pure}
use unit_redis_ness.SetCommands.{has, add_each}
use unit_redis_ness.SetCommands.Laws.{IsSetList, has-append}
use unit_redis_ness.SetCommands.Several.{
  as_set, unite, union, sunion, sunionstore, Members, members, refused,
}
use unit_redis_ness.SetCommands.Several.Laws.{
  in_some, gathered, gathered-get, gathered-IsSetList, has-gathered,
}

-- Every one of the keys holds a set.
abbrev pub AreSets : ℕ → Database → List String → Type 0
AreSets now db [] = Unit
AreSets now db (key ∷ keys) =
    ((xs : List String) × (as_set (view now db key) ≡ some xs)) × AreSets now db keys

AreSets-get :
    (now : ℕ) (db : Database) (key : String) (keys : List String)
    → AreSets now db keys
    → AreSets now (Database.get now db key).1 keys
AreSets-get now db key [] h = tt
AreSets-get now db key (k ∷ keys) (h, hs) =
    ((h.0, rw (view-get now db key k) (h.1)), AreSets-get now db key keys hs)

unite-step :
    (r : Request) (key : String) (keys all : List String) (s : Store) {xs : List String}
    → as_set (view r.now s.db key) ≡ some xs
    → unite r (key ∷ keys) all s
      ≡ unite r keys (add_each xs all) (record s { db = (Database.get r.now s.db key).1 })
unfolding unite
unite-step r key keys all s e =
    let here = record s { db = (Database.get r.now s.db key).1 } in
    rw (get-view r.now s.db key) (λ i.
      (elim (e i) as (λ _. Command Members) [
        | none ↦ pure refused
        | some m ↦ unite r keys (add_each m all)
      ])
        here)

unite-gathered :
    (r : Request) (keys all : List String) (s : Store)
    → AreSets r.now s.db keys
    → ((unite r keys all s).0 ≡ returns (members (gathered r.now s.db keys all)))
      × SameView r.now s.db (unite r keys all s).1.db
unfolding unite gathered
unite-gathered r [] all s h = (refl, λ j. refl)
unite-gathered r (key ∷ keys) all s ((xs, e), hs) =
    let here = record s { db = (Database.get r.now s.db key).1 } in
    let (reply, same) =
      unite-gathered r keys (add_each xs all) here (AreSets-get r.now s.db key keys hs) in
    rw (unite-step r key keys all s e, e)
      (
        reply
            ∙ ap (λ ms. returns (members ms)) (gathered-get r.now s.db key keys (add_each xs all)),
        λ j. same j ∙ view-get r.now s.db key j,
      )

-- No member of the first list is in the second.
abbrev AreNew : List String → List String → Type 0
AreNew [] xs = Unit
AreNew (m ∷ ms) xs = (has m xs ≡ false) × AreNew ms xs

append-AreNew :
    (m : String) (ms xs : List String) → has m ms ≡ false → AreNew ms xs → AreNew ms (xs ++ m ∷ [])
unfolding has
append-AreNew m [] xs h new = tt
append-AreNew m (y ∷ ms) xs h new = (
  has-append y m xs ∙ ground (arith, new.0, eq_iff y m, eq_iff m y),
  append-AreNew m ms xs (ground arith) new.1,
)

add_each-append : (ms xs : List String) → IsSetList ms → AreNew ms xs → add_each ms xs ≡ xs ++ ms
unfolding add_each
add_each-append [] xs distinct new = sym (append-nil xs)
add_each-append (m ∷ ms) xs distinct new = rw (new.0) (
    add_each-append ms (xs ++ m ∷ []) distinct.1 (append-AreNew m ms xs distinct.0 new.1)
    ∙ append_assoc xs (m ∷ []) ms)

AreNew-nil : (ms : List String) → AreNew ms []
unfolding has
AreNew-nil [] = tt
AreNew-nil (m ∷ ms) = (refl, AreNew-nil ms)

is_there :
    (o : Option DatabaseValue) {xs : List String}
    → as_set o ≡ some xs
    → (v : DatabaseValue) × (o ≡ some v)
is_there none h = cc
is_there (some v) h = (v, refl)

union-gathered :
    (r : Request) (keys : List String) (s : Store)
    → AreSets r.now s.db keys
    → ((union r keys s).0 ≡ returns (members (gathered r.now s.db keys [])))
      × SameView r.now s.db (union r keys s).1.db
unfolding union gathered
union-gathered r [] s h = (refl, λ j. refl)
union-gathered r (key ∷ keys) s ((xs, e), hs) =
    let (v, held) = is_there (view r.now s.db key) e in
    rw (exists_hit r.now s.db key v held) (unite-gathered r (key ∷ keys) [] s ((xs, e), hs))

has-united :
    (now : ℕ) (db : Database) (keys : List String) (m : String)
    → has m (gathered now db keys []) ≡ in_some now db keys m
unfolding has
has-united now db keys m = has-gathered now db keys [] m

module _ (r : Request) (s : Store) where
  -- SUNION of keys that all hold sets replies with the members of any of the sets, each once,
  -- and changes nothing.
  pub sunion_lem :
      AreSets r.now s.db r.params
      → (ys : List String) × IsSetList ys
        × ((m : String) → has m ys ≡ in_some r.now s.db r.params m)
        × ((sunion r s).0 ≡ returns (array (texts ys)))
        × SameView r.now s.db (sunion r s).1.db
  unfolding sunion
  sunion_lem h =
      let (reply, same) = union-gathered r r.params s h in
      (
        gathered r.now s.db r.params [],
        gathered-IsSetList r.now s.db r.params [] tt,
        has-united r.now s.db r.params,
        rw reply refl,
        rw reply same,
      )

  -- SUNIONSTORE from keys that all hold sets leaves at the first key a set, without a deadline,
  -- whose members are those of any of the sets, each once, replies with their number, and
  -- touches no other key.
  pub sunionstore_lem :
      AreSets r.now s.db (drop 1 r.params)
      → (ys : List String) × IsSetList ys
        × ((m : String) → has m ys ≡ in_some r.now s.db (drop 1 r.params) m)
        × ((sunionstore r s).0 ≡ returns (count (length ys)))
        × Leaves r.now s.db (sunionstore r s).1.db (get_param r 0) (some (of_payload (set ys)))
  unfolding sunionstore
  sunionstore_lem h =
      let keys = drop 1 r.params in
      let (reply, same) = union-gathered r keys s h in
      let all = gathered r.now s.db keys [] in
      let distinct = gathered-IsSetList r.now s.db keys [] tt in
      (
        all,
        distinct,
        has-united r.now s.db keys,
        rw reply refl,
        λ j.
            rw
              (
                reply,
                add_each-append all [] distinct (AreNew-nil all),
                view-put r.now (union r keys s).1.db (get_param r 0) j (of_payload (set all)),
                live_undated r.now s.db (get_param r 0) (of_payload (set all)) refl,
                same j,
              )
              refl,
      )
