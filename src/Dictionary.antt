-- ===== src/Dictionary.antt =====
-- src/dictionary.ts: `Dictionary`, a JavaScript object used as a map from texts.
-- The object is an association list with one entry for a key. A write to a present key stays in
-- its place, a new key goes last; `Object.keys` of a real object lists integer-like keys first,
-- and no theorem depends on that order. Keys that name properties of `Object.prototype` are not
-- modelled.
pub mod Laws
use unit_redis_ness.Prelude.{
  ℕ, String, ◌≡◌, Bool, true, false, not, Option, none, some, List, [], ◌∷◌, map, length, ◌==◌,
  if◌then◌else◌,
}

pub record Dictionary {ℓ} (V : Type ℓ) : Type ℓ where
  pub items : List (String × V)

-- JavaScript's conversion of a value to a Boolean.
pub record Truthy {ℓ} (V : Type ℓ) : Type ℓ where
  pub truthy : V → Bool

module _ {ℓ} {V : Type ℓ} where
  -- items[key]
  unfoldable pub lookup : String → List (String × V) → Option V
  lookup k [] = none
  lookup k ((j, v) ∷ m) = if j == k then some v else lookup k m

  -- items[key] = value
  unfoldable pub insert : String → V → List (String × V) → List (String × V)
  insert k v [] = (k, v) ∷ []
  insert k v ((j, w) ∷ m) = if j == k then (j, v) ∷ m else (j, w) ∷ insert k v m

  -- delete items[key]
  unfoldable pub without : String → List (String × V) → List (String × V)
  without k [] = []
  without k ((j, w) ∷ m) = let rest = without k m in if j == k then rest else (j, w) ∷ rest

module _ {ℓ} {V : Type ℓ} where
  abbrev pub empty : Dictionary V
  empty = record { items = [] }

  unfoldable pub get : Dictionary V → String → Option V
  unfolding lookup
  get d key = lookup key d.items

  -- The method returns the value that it was given.
  unfoldable pub put : Dictionary V → String → V → Dictionary V
  unfolding insert
  put d key value = record { items = insert key value d.items }

  unfoldable pub keys : Dictionary V → List String
  keys d = map (λ e. e.0) d.items

  unfoldable pub values : Dictionary V → List V
  values d = map (λ e. e.1) d.items

  unfoldable pub size : Dictionary V → ℕ
  size d = length (keys d)

  -- `Object.keys(items).forEach((key) => delete items[key])`
  delete_all : List String → List (String × V) → List (String × V)
  delete_all [] m = m
  delete_all (k ∷ ks) m = delete_all ks (without k m)

  unfoldable pub clear : Dictionary V → Dictionary V
  unfolding delete_all keys without
  clear d = record { items = delete_all (keys d) d.items }

module _ {ℓ} {V : Type ℓ} ⦃t : Truthy V⦄ where
  is_truthy : Option V → Bool
  is_truthy none = false
  is_truthy (some v) = t.truthy v

  -- `!!items[key]`
  unfoldable pub exists : Dictionary V → String → Bool
  unfolding is_truthy get
  exists d key = is_truthy (get d key)

  -- The old value, and the dictionary without it; a falsy value is not deleted.
  unfoldable pub remove : Dictionary V → String → Option V × Dictionary V
  unfolding is_truthy get without
  remove d key =
      (get d key, if is_truthy (get d key) then record { items = without key d.items } else d)
