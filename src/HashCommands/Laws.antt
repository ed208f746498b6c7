-- ===== src/HashCommands/Laws.antt =====
-- HSET, HGET and HGETALL against hashes as maps from fields to values.
use unit_redis_ness.Prelude.{
  ◌+◌, ◌%◌, String, ◌≡◌, refl, ap, ◌∙◌, true, false, Option, none, some, List, [], ◌∷◌, drop, ◌==◌,
  eqb, if◌then◌else◌, arith, Option-cases, inl, inr, ◌-◌, eq_refl, eq_iff, sym, Bool-cases,
}
use unit_redis_ness.Dictionary
use unit_redis_ness.Dictionary.{Dictionary}
use unit_redis_ness.Dictionary.Laws.{IsDistinct, get-put, put-IsDistinct, size-put}
use unit_redis_ness.Outcome.{returns}
use unit_redis_ness.DatabaseValue.{DatabaseValue, hash, of_payload, get_hash}
use unit_redis_ness.Database
use unit_redis_ness.Database.Laws.{view, get-view, Leaves, Leaves-put, live_undated, view-put}
use unit_redis_ness.Token.{count, text}
use unit_redis_ness.Command.{Request, get_param, get_length, Store}
use unit_redis_ness.HashCommands.{
  hget, hget_of, field_value, hset, hset_of, set_fields, or_new_hash,
}

-- The last value that the pairs give the field, or the old one.
unfoldable pub assigned : List String → String → Option String → Option String
assigned [] f old = old
assigned (g ∷ []) f old = old
assigned (g ∷ v ∷ rest) f old = assigned rest f (if g == f then some v else old)

get-set_fields :
    (pairs : List String) (h : Dictionary String) (f : String)
    → Dictionary.get (set_fields pairs h).1 f ≡ assigned pairs f (Dictionary.get h f)
unfolding set_fields assigned
get-set_fields [] h f = refl
get-set_fields (g ∷ []) h f = refl
get-set_fields (g ∷ v ∷ rest) h f =
    get-set_fields rest (Dictionary.put h g v) f ∙ ap (assigned rest f) (get-put h g f v)

pub set_fields-IsDistinct :
    (pairs : List String) (h : Dictionary String)
    → IsDistinct h.items
    → IsDistinct (set_fields pairs h).1.items
unfolding set_fields
set_fields-IsDistinct [] h d = d
set_fields-IsDistinct (g ∷ []) h d = d
set_fields-IsDistinct (g ∷ v ∷ rest) h d =
    set_fields-IsDistinct rest (Dictionary.put h g v) (put-IsDistinct h g v d)

-- No value of the hash is the empty text, nor any value of the pairs.
abbrev pub IsFilled : Dictionary String → Type 0
IsFilled h = (f v : String) → Dictionary.get h f ≡ some v → (v == "") ≡ false

abbrev pub AreFilled : List String → Type 0
AreFilled [] = Unit
AreFilled (g ∷ []) = Unit
AreFilled (g ∷ v ∷ rest) = ((v == "") ≡ false) × AreFilled rest

put-IsFilled :
    (h : Dictionary String) (g v : String)
    → IsFilled h
    → (v == "") ≡ false
    → IsFilled (Dictionary.put h g v)
put-IsFilled h g v old new f w e = ground (arith, get-put h g f v, old f w)

size-set_fields :
    (pairs : List String) (h : Dictionary String)
    → IsFilled h
    → AreFilled pairs
    → (set_fields pairs h).0 + Dictionary.size h ≡ Dictionary.size (set_fields pairs h).1
unfolding set_fields
size-set_fields [] h old new = omega arith
size-set_fields (g ∷ []) h old new = omega arith
size-set_fields (g ∷ v ∷ rest) h old new =
    let later = size-set_fields rest (Dictionary.put h g v) (put-IsFilled h g v old new.0) new.1 in
    elim (Option-cases (Dictionary.get h g)) [
      | inl absent ↦ rw absent (omega (arith, later, (size-put h g v v).0 absent))
      | inr (w, there) ↦
          rw (there, old g w there) (omega (arith, later, (size-put h g v w).1 there))
    ]

-- The key holds the hash, or nothing where the hash is empty.
unfoldable pub HoldsHash : Option DatabaseValue → Dictionary String → Type 0
HoldsHash none h = h ≡ Dictionary.empty
HoldsHash (some v) h = v.value ≡ hash h

get_hash-HoldsHash :
    (o : Option DatabaseValue) (h : Dictionary String)
    → HoldsHash o h
    → get_hash (or_new_hash o) ≡ returns h
unfolding HoldsHash get_hash
get_hash-HoldsHash none h e = ap returns (sym e)
get_hash-HoldsHash (some v) h e = rw e

-- What a client reads of a field: no value reads as the empty text, and both are sent as nil.
unfoldable pub or_empty : Option String → String
or_empty none = ""
or_empty (some v) = v

field_value-text : (o : Option String) → field_value o ≡ text (or_empty o)
unfolding or_empty
field_value-text none = refl
field_value-text (some v) = elim (Bool-cases (v == "")) [
  | inl blank ↦ rw blank (ap text (sym ((eq_iff v "").0 blank)))
  | inr filled ↦ rw filled
]

module _ (r : Request) (s : Store) (h : Dictionary String)
    (held : HoldsHash (view r.now s.db (get_param r 0)) h)
    (odd : eqb (get_length r % 2) 1 ≡ true) where
  after-hset : hset r s ≡ (
    returns (count (set_fields (drop 1 r.params) h).0),
    record s {
      db =
          Database.put
            (Database.get r.now s.db (get_param r 0)).1
            (get_param r 0)
            (of_payload (hash (set_fields (drop 1 r.params) h).1));
    },
  )
  unfolding hset hset_of
  after-hset =
      rw
        (
          odd,
          get-view r.now s.db (get_param r 0),
          get_hash-HoldsHash (view r.now s.db (get_param r 0)) h held,
        )
        refl

  hset-Leaves :
      Leaves r.now s.db
        (hset r s).1.db
        (get_param r 0)
        (some (of_payload (hash (set_fields (drop 1 r.params) h).1)))
  hset-Leaves =
      rw after-hset
        (Leaves-put r.now s.db (get_param r 0) _ (live_undated r.now s.db (get_param r 0) _ refl))

  -- HSET of pairs at a key that holds a hash or nothing: the key holds a hash in which each field
  -- has the last value that the pairs give it, or else its old one; the other keys are as they
  -- were, and the reply is the number of fields that were counted as new.
  pub hset_lem :
      (h' : Dictionary String) × ((f : String)
        → Dictionary.get h' f ≡ assigned (drop 1 r.params) f (Dictionary.get h f))
      × Leaves r.now s.db (hset r s).1.db (get_param r 0) (some (of_payload (hash h')))
      × ((hset r s).0 ≡ returns (count (set_fields (drop 1 r.params) h).0))
  hset_lem = (
    (set_fields (drop 1 r.params) h).1,
    get-set_fields (drop 1 r.params) h,
    hset-Leaves,
    rw after-hset refl,
  )

  -- HSET of pairs at a key that holds a hash or nothing, where no value is the empty text: the
  -- key holds a hash in which each field has the last value that the pairs give it, or else the
  -- one that it had, without the deadline that the key may have had; the other keys are as they
  -- were, and the reply is the number of fields by which the hash has grown.
  pub hset_counts :
      IsFilled h
      → AreFilled (drop 1 r.params)
      → (h' : Dictionary String) × ((f : String)
          → Dictionary.get h' f ≡ assigned (drop 1 r.params) f (Dictionary.get h f))
        × Leaves r.now s.db (hset r s).1.db (get_param r 0) (some (of_payload (hash h')))
        × ((hset r s).0 ≡ returns (count (Dictionary.size h' - Dictionary.size h)))
  hset_counts old new =
      let size = size-set_fields (drop 1 r.params) h old new in
      (
        (set_fields (drop 1 r.params) h).1,
        get-set_fields (drop 1 r.params) h,
        hset-Leaves,
        rw after-hset (ap (λ n. returns (count n)) (omega (arith, size))),
      )

  -- HGET, at any time, of a field after an HSET of pairs at a key that held a hash or nothing
  -- (an empty hash, then): the reply is the text of the last value that the pairs give the
  -- field, or else of the one that it had, and the empty text, which is sent as nil, where there
  -- is none.
  pub hget-hset :
      (q : Request)
      → get_param q 0 ≡ get_param r 0
      → (hget q (hset r s).1).0
        ≡ returns (
            text (
              or_empty
                (assigned (drop 1 r.params) (get_param q 1) (Dictionary.get h (get_param q 1)))))
  unfolding hget hget_of get_hash
  hget-hset q same =
      let before = (Database.get r.now s.db (get_param r 0)).1 in
      let v = of_payload (hash (set_fields (drop 1 r.params) h).1) in
      let shown : view q.now (Database.put before (get_param r 0) v) (get_param r 0) ≡ some v =
        rw (view-put q.now before (get_param r 0) (get_param r 0) v, eq_refl (get_param r 0))
          (live_undated q.now before (get_param r 0) v refl) in
      rw
        (
          after-hset,
          same,
          get-view q.now (Database.put before (get_param r 0) v) (get_param r 0),
          shown,
        )
        (ap (λ o. returns (field_value o)) (get-set_fields (drop 1 r.params) h (get_param q 1))
          ∙ ap returns (
              field_value-text
                (assigned (drop 1 r.params) (get_param q 1) (Dictionary.get h (get_param q 1)))))
