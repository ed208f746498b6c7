-- ===== src/KeyCommands/Names/Laws.antt =====
-- What DEL, EXISTS, RENAME, RENAMENX and TYPE show and change.
use unit_redis_ness.Prelude.{
  ℕ, suc, ◌+◌, String, ◌≡◌, refl, ◌∙◌, Bool, true, false, Option, none, some, List, [], ◌∷◌,
  if◌then◌else◌, arith, ◌==◌, Option-cases, inl, inr,
}
use unit_redis_ness.Outcome.{returns}
use unit_redis_ness.Dictionary
use unit_redis_ness.DatabaseValue.{DatabaseValue}
use unit_redis_ness.Database
use unit_redis_ness.Database.{Database, has_lapsed}
use unit_redis_ness.Database.Laws.{
  view, SameView, view-get, get-view, view-put, view-remove, get_live, remove_live, view_live,
}
use unit_redis_ness.Token.{count, text, response_ok}
use unit_redis_ness.Command.{Request, get_param, Store}
use unit_redis_ness.KeyCommands.Names.{
  del, del_all, exists, exists_all, rename, renamenx, type, type_of, type_name, one_if_some,
}

abbrev pub holds : Option DatabaseValue → Bool
holds none = false
holds (some _) = true

-- How many of the keys hold a value, a key counted each time it is named.
unfoldable pub count_live : ℕ → Database → List String → ℕ
count_live now db [] = 0
count_live now db (key ∷ keys) =
    let rest = count_live now db keys in if holds (view now db key) then suc rest else rest

count_live-get :
    (now : ℕ) (db : Database) (key : String) (keys : List String)
    → count_live now (Database.get now db key).1 keys ≡ count_live now db keys
unfolding count_live
count_live-get now db key [] = refl
count_live-get now db key (k ∷ keys) = rw (view-get now db key k, count_live-get now db key keys)

module _ (r : Request) where
  exists_all_lem :
      (keys : List String) (s : Store)
      → ((exists_all r keys s).0 ≡ returns (count_live r.now s.db keys))
        × SameView r.now s.db (exists_all r keys s).1.db
  unfolding exists_all count_live Database.exists
  exists_all_lem [] s = (refl, λ j. refl)
  exists_all_lem (key ∷ keys) s =
      let (reply, same) = exists_all_lem keys (record s { db = (Database.get r.now s.db key).1 }) in
      elim (Option-cases (view r.now s.db key)) [
        | inl absent ↦
            rw (get-view r.now s.db key, absent, reply, count_live-get r.now s.db key keys)
              (refl, λ j. same j ∙ view-get r.now s.db key j)
        | inr (v, held) ↦
            rw (get-view r.now s.db key, held, reply, count_live-get r.now s.db key keys)
              (refl, λ j. same j ∙ view-get r.now s.db key j)
      ]

module _ (r : Request) (s : Store) where
  -- EXISTS replies with the number of the named keys that hold a value that has not lapsed, a
  -- key counted each time it is named, and changes nothing.
  pub exists_lem :
      ((exists r s).0 ≡ returns (count (count_live r.now s.db r.params)))
      × SameView r.now s.db (exists r s).1.db
  unfolding exists
  exists_lem = rw ((exists_all_lem r r.params s).0) (refl, (exists_all_lem r r.params s).1)

  -- TYPE
  pub type_lem :
      ((type r s).0 ≡ returns (text (type_name (type_of (view r.now s.db (get_param r 0))))))
      × SameView r.now s.db (type r s).1.db
  unfolding type
  type_lem = rw (get-view r.now s.db (get_param r 0)) (refl, view-get r.now s.db (get_param r 0))

-- `from` is empty, `to` holds the value, the other keys are as they were; a key renamed to itself stays.
abbrev pub Renames : ℕ → Database → Database → String → String → DatabaseValue → Type 0
Renames now db db' from to v =
    (j : String)
    → view now db' j ≡ (if to == j then some v else if from == j then none else view now db j)

module _ (now : ℕ) (db : Database) (from to : String) (v : DatabaseValue) where
  rename-Renames :
      view now db from ≡ some v → Renames now db (Database.rename db from to).1 from to v
  unfolding Database.rename
  rename-Renames held j =
      rw
        (
          remove_live now db from v held,
          view-put now (Database.remove db from).1 to j v,
          view_live now db from v held,
          view-remove now db from j,
        )
        refl

module _ (r : Request) (s : Store) (v : DatabaseValue)
    (held : view r.now s.db (get_param r 0) ≡ some v) where
  -- RENAME of a key that holds a value replies OK: the new name holds the value with its
  -- deadline, in place of what was there, the old name holds nothing unless the two are equal,
  -- and the other keys are as they were.
  pub rename_lem :
      ((rename r s).0 ≡ returns response_ok)
      × Renames r.now s.db (rename r s).1.db (get_param r 0) (get_param r 1) v
  unfolding rename
  rename_lem =
      rw (get-view r.now s.db (get_param r 0), held, get_live r.now s.db (get_param r 0) v held)
        (refl, rename-Renames r.now s.db (get_param r 0) (get_param r 1) v held)

  -- RENAMENX of a key that holds a value to a name that holds none replies 1: the new name holds
  -- the value with its deadline, the old one nothing, and the other keys are as they were.
  pub renamenx_moves :
      view r.now s.db (get_param r 1) ≡ none
      → ((renamenx r s).0 ≡ returns (count 1))
        × Renames r.now s.db (renamenx r s).1.db (get_param r 0) (get_param r 1) v
  unfolding renamenx Database.exists
  renamenx_moves absent =
      let db = (Database.get r.now s.db (get_param r 1)).1 in
      let there : view r.now db (get_param r 0) ≡ some v =
        view-get r.now s.db (get_param r 1) (get_param r 0) ∙ held in
      rw
        (
          get-view r.now s.db (get_param r 0),
          held,
          get_live r.now s.db (get_param r 0) v held,
          get-view r.now s.db (get_param r 1),
          absent,
        )
        (
          refl,
          λ j.
              rw
                (
                  rename-Renames r.now db (get_param r 0) (get_param r 1) v there j,
                  view-get r.now s.db (get_param r 1) j,
                )
                refl,
        )

  pub renamenx_declines :
      (w : DatabaseValue)
      → view r.now s.db (get_param r 1) ≡ some w
      → ((renamenx r s).0 ≡ returns (count 0)) × SameView r.now s.db (renamenx r s).1.db
  unfolding renamenx Database.exists
  renamenx_declines w there =
      rw
        (
          get-view r.now s.db (get_param r 0),
          held,
          get_live r.now s.db (get_param r 0) v held,
          get-view r.now s.db (get_param r 1),
          there,
        )
        (refl, view-get r.now s.db (get_param r 1))

-- DEL counts the entries of the dictionary, live or not.
unfoldable pub count_entries : Database → List String → ℕ
count_entries db [] = 0
count_entries db (key ∷ keys) =
    let rest = count_entries (Database.remove db key).1 keys in
    if holds (Dictionary.get db key) then suc rest else rest

-- No key that was named holds a value, the other keys are as they were.
unfoldable pub among : List String → String → Bool
among [] j = false
among (key ∷ keys) j = let rest = among keys j in if key == j then true else rest

counted : (o : Option DatabaseValue) (n : ℕ) → one_if_some o + n ≡ (if holds o then suc n else n)
unfolding one_if_some
counted none n = omega arith
counted (some _) n = omega arith

del_all_lem :
    (now : ℕ) (keys : List String) (s : Store)
    → ((del_all keys s).0 ≡ returns (count_entries s.db keys))
      × ((j : String)
          → view now (del_all keys s).1.db j ≡ (if among keys j then none else view now s.db j))
unfolding del_all count_entries among Database.remove Dictionary.remove
del_all_lem now [] s = (refl, λ j. refl)
del_all_lem now (key ∷ keys) s =
    let (reply, left) = del_all_lem now keys (record s { db = (Database.remove s.db key).1 }) in
    rw (reply, counted (Dictionary.get s.db key) (count_entries (Database.remove s.db key).1 keys))
      (refl, λ j. rw (left j, view-remove now s.db key j) (ground arith))

-- DEL leaves no value at a named key and the other keys as they were. It replies with the number
-- of entries that it removed, those that have lapsed among them.
pub del_lem :
    (r : Request) (s : Store)
    → ((del r s).0 ≡ returns (count (count_entries s.db r.params)))
      × ((j : String)
          → view r.now (del r s).1.db j ≡ (if among r.params j then none else view r.now s.db j))
unfolding del
del_lem r s = rw ((del_all_lem r.now r.params s).0) (refl, (del_all_lem r.now r.params s).1)
