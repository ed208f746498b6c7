-- ===== src/Soundness/Stored.antt =====
-- Well-formed databases, and the operations of a database on them.
use unit_redis_ness.Prelude.{
  ℕ, String, Option, none, some, List, [], ◌∷◌, ◌==◌, Option-cases, Bool-cases, refl, inl, inr,
}
use unit_redis_ness.Dictionary
use unit_redis_ness.Dictionary.{lookup, insert, without}
use unit_redis_ness.Dictionary.Laws.{IsDistinct, put-IsDistinct, remove-IsDistinct, remove-items}
use unit_redis_ness.DatabaseValue.{DatabaseValue, Payload, string, list, set, hash, zset}
use unit_redis_ness.Database
use unit_redis_ness.Database.{Database, database_value_truthy, has_lapsed}
use unit_redis_ness.SetCommands.Laws.{IsSetList}

abbrev pub IsSoundPayload : Payload → Type 0
IsSoundPayload (string s) = Unit
IsSoundPayload (list l) = Unit
IsSoundPayload (set m) = IsSetList m
IsSoundPayload (hash h) = IsDistinct h.items
IsSoundPayload (zset z) = Unit

abbrev pub IsSoundItem : Option DatabaseValue → Type 0
IsSoundItem none = Unit
IsSoundItem (some v) = IsSoundPayload v.value

abbrev pub AreSound : List (String × DatabaseValue) → Type 0
AreSound [] = Unit
AreSound ((k, v) ∷ m) = IsSoundPayload v.value × AreSound m

abbrev pub IsSound : Database → Type 0
IsSound db = IsDistinct db.items × AreSound db.items

lookup-IsSoundItem :
    (k : String) (m : List (String × DatabaseValue)) → AreSound m → IsSoundItem (lookup k m)
unfolding lookup
lookup-IsSoundItem k [] h = tt
lookup-IsSoundItem k ((j, v) ∷ m) h = elim (Bool-cases (j == k)) [
  | inl same ↦ rw same (h.0)
  | inr other ↦ rw other (lookup-IsSoundItem k m h.1)
]

insert-AreSound :
    (k : String) (v : DatabaseValue) (m : List (String × DatabaseValue))
    → IsSoundPayload v.value
    → AreSound m
    → AreSound (insert k v m)
unfolding insert
insert-AreSound k v [] new h = (new, tt)
insert-AreSound k v ((j, w) ∷ m) new h = elim (Bool-cases (j == k)) [
  | inl same ↦ rw same (new, h.1)
  | inr other ↦ rw other (h.0, insert-AreSound k v m new h.1)
]

without-AreSound :
    (k : String) (m : List (String × DatabaseValue)) → AreSound m → AreSound (without k m)
unfolding without
without-AreSound k [] h = tt
without-AreSound k ((j, w) ∷ m) h = elim (Bool-cases (j == k)) [
  | inl same ↦ rw same (without-AreSound k m h.1)
  | inr other ↦ rw other (h.0, without-AreSound k m h.1)
]

module _ (db : Database) (sound : IsSound db) where
  pub put-IsSound :
      (key : String) (v : DatabaseValue) → IsSoundPayload v.value → IsSound (Database.put db key v)
  unfolding Database.put Dictionary.put
  put-IsSound key v new =
      (put-IsDistinct db key v sound.0, insert-AreSound key v db.items new sound.1)

  pub remove-IsSound : (key : String) → IsSound (Database.remove db key).1
  unfolding Database.remove
  remove-IsSound key = (
    remove-IsDistinct db key sound.0,
    rw (remove-items db key (λ _. refl)) (without-AreSound key db.items sound.1),
  )

  pub get-IsSound : (now : ℕ) (key : String) → IsSound (Database.get now db key).1
  unfolding Database.get
  get-IsSound now key = elim (Option-cases (Dictionary.get db key)) [
    | inl e ↦ rw e sound
    | inr (v, e) ↦ rw e (elim (Bool-cases (has_lapsed now v)) [
      | inl gone ↦ rw gone (remove-IsSound key)
      | inr stays ↦ rw stays sound
    ])
  ]

  pub get-IsSoundItem : (now : ℕ) (key : String) → IsSoundItem (Database.get now db key).0
  unfolding Database.get
  get-IsSoundItem now key = elim (Option-cases (Dictionary.get db key)) [
    | inl e ↦ rw e tt
    | inr (v, e) ↦
        let found : IsSoundItem (Dictionary.get db key) =
          unfold Dictionary.get in lookup-IsSoundItem key db.items sound.1 in
        rw e (elim (Bool-cases (has_lapsed now v)) [
          | inl gone ↦ rw gone tt
          | inr stays ↦ rw stays (rw e at found)
        ])
  ]

module _ (db : Database) (sound : IsSound db) where
  removed-IsSoundItem : (key : String) → IsSoundItem (Database.remove db key).0
  unfolding Database.remove Dictionary.remove Dictionary.get
  removed-IsSoundItem key = lookup-IsSoundItem key db.items sound.1

  pub rename-IsSound : (from to : String) → IsSound (Database.rename db from to).1
  unfolding Database.rename
  rename-IsSound from to = elim (Option-cases (Database.remove db from).0) [
    | inl e ↦ rw e (remove-IsSound db sound from)
    | inr (v, e) ↦
        let moved : IsSoundPayload v.value = rw e at (removed-IsSoundItem from) in
        rw e (put-IsSound (Database.remove db from).1 (remove-IsSound db sound from) to v moved)
  ]

  pub put_if_present-IsSound :
      (now : ℕ) (key : String) (v : DatabaseValue)
      → IsSoundPayload v.value
      → IsSound (Database.put_if_present now db key v).1
  unfolding Database.put_if_present
  put_if_present-IsSound now key v new = elim (Option-cases (Database.get now db key).0) [
    | inl e ↦ rw e (get-IsSound db sound now key)
    | inr (w, e) ↦
        rw e (put-IsSound (Database.get now db key).1 (get-IsSound db sound now key) key v new)
  ]

  pub put_if_absent-IsSound :
      (now : ℕ) (key : String) (v : DatabaseValue)
      → IsSoundPayload v.value
      → IsSound (Database.put_if_absent now db key v).1
  unfolding Database.put_if_absent
  put_if_absent-IsSound now key v new = elim (Option-cases (Database.get now db key).0) [
    | inl e ↦
        rw e (put-IsSound (Database.get now db key).1 (get-IsSound db sound now key) key v new)
    | inr (w, e) ↦ rw e (get-IsSound db sound now key)
  ]
