-- ===== src/DatabaseCommands/Flush.antt =====
-- FLUSHDB and FLUSHALL leave databases without entries.
use unit_redis_ness.Prelude.{
  ℕ, zero, suc, ◌+◌, ◌≡◌, refl, ap, Bool, Bool-cases, inl, inr, ◌∙◌, negsuc, true, false, ltb, leb,
  none, List, [], ◌∷◌, map, String, pos, arith, ◌==◌, eq_refl, if◌then◌else◌, ◌&&◌,
}
use unit_redis_ness.Number.{Number, nan, infinite, fraction, integer, same}
use unit_redis_ness.Outcome.{returns}
use unit_redis_ness.Dictionary
use unit_redis_ness.Dictionary.Laws.{get-remove}
use unit_redis_ness.DatabaseValue.{DatabaseValue}
use unit_redis_ness.Database
use unit_redis_ness.Database.{Database, database_value_truthy}
use unit_redis_ness.Token.{response_ok}
use unit_redis_ness.World.{World, get_database, put_database}
use unit_redis_ness.DatabaseCommands.{flush, remove_each, flushdb, flushall, flush_from}

is_key : List String → String → Bool
is_key [] j = false
is_key (key ∷ keys) j = let rest = is_key keys j in if key == j then true else rest

get-remove_each :
    (keys : List String) (db : Database) (j : String)
    → Dictionary.get (remove_each keys db) j ≡ (if is_key keys j then none else Dictionary.get db j)
unfolding remove_each is_key Database.remove
get-remove_each [] db j = refl
get-remove_each (key ∷ keys) db j =
    rw (get-remove_each keys (Database.remove db key).1 j)
      (ground (arith, get-remove db key j (λ _. refl)))

lookup_keys :
    (m : List (String × DatabaseValue)) (j : String)
    → is_key (map (λ e. e.0) m) j ≡ false
    → Dictionary.lookup j m ≡ none
unfolding is_key Dictionary.lookup
lookup_keys [] j h = refl
lookup_keys ((k, v) ∷ m) j h = ground (arith, lookup_keys m j)

items_none :
    (m : List (String × DatabaseValue)) → ((j : String) → Dictionary.lookup j m ≡ none) → m ≡ []
unfolding Dictionary.lookup
items_none [] h = refl
items_none ((k, v) ∷ m) h = absurd (ground (arith, h k, eq_refl k))

-- What FLUSHDB leaves of a database has no entry.
pub flush-empty : (db : Database) → flush db ≡ Database.empty
unfolding flush Dictionary.get Dictionary.keys
flush-empty db =
    ap (λ m. record { items = m })
      (items_none (flush db).items (λ j.
        get-remove_each (Dictionary.keys db) db j
        ∙ elim (Bool-cases (is_key (Dictionary.keys db) j)) [
          | inl there ↦ rw there
          | inr fresh ↦ rw fresh (lookup_keys db.items j fresh)
        ]))

-- The numbers of `n` databases from `i` on.
abbrev pub is_between : ℕ → ℕ → Number → Bool
is_between i n (integer (pos k)) = leb i k && ltb k (i + n)
is_between i n _ = false

step_between :
    (i k : ℕ) (n : Number)
    → is_between i (suc k) n ≡ (if same n (integer (pos i)) then true else is_between (suc i) k n)
step_between i k nan = refl
step_between i k (infinite up) = ground arith
step_between i k (integer (pos m)) = ground arith
step_between i k (integer (negsuc m)) = ground arith
step_between i k (fraction _ _) = refl

none_between : (i : ℕ) (n : Number) → is_between i 0 n ≡ false
none_between i (integer (pos k)) = ground arith
none_between i (integer (negsuc k)) = refl
none_between i nan = refl
none_between i (infinite up) = refl
none_between i (fraction f x) = refl

module _ {C : Type 0} where
  pub get-put_database :
      (id n : Number) (db : Database) (w : World C)
      → get_database n (put_database id db w) ≡ (if same n id then db else get_database n w)
  unfolding get_database put_database
  get-put_database id n db w = ground arith

  -- FLUSHDB empties the database that it is given, and no other.
  pub flushdb_lem :
      (id n : Number) (w : World C)
      → ((flushdb id w).0 ≡ returns response_ok)
        × (get_database n (flushdb id w).1
            ≡ (if same n id then Database.empty else get_database n w))
  unfolding flushdb
  flushdb_lem id n w = (
    refl,
    get-put_database id n (flush (get_database id w)) w
        ∙ ap (λ db. if same n id then db else get_database n w) (flush-empty (get_database id w)),
  )

  flush_from_lem :
      (k i : ℕ) (n : Number) (w : World C)
      → get_database n (flush_from k i w)
        ≡ (if is_between i k n then Database.empty else get_database n w)
  unfolding flush_from
  flush_from_lem zero i n w = rw (none_between i n) refl
  flush_from_lem (suc k) i n w =
      let w' = put_database (integer (pos i)) (flush (get_database (integer (pos i)) w)) w in
      rw
        (
          flush_from_lem k (suc i) n w',
          get-put_database (integer (pos i)) n (flush (get_database (integer (pos i)) w)) w,
          flush-empty,
          step_between i k n,
        )
        (ground arith)

  -- FLUSHALL replies OK, leaves the databases 0 to 15 without entries, and every other one as it
  -- was.
  pub flushall_lem :
      (n : Number) (w : World C)
      → ((flushall w).0 ≡ returns response_ok)
        × (get_database n (flushall w).1
            ≡ (if is_between 0 16 n then Database.empty else get_database n w))
  unfolding flushall
  flushall_lem n w = (refl, flush_from_lem 16 0 n w)
