-- ===== src/Soundness.antt =====
-- What is well formed of the stored data: a dictionary has one entry for a key, a set no member
-- twice, a hash one value for a field. And the rules by which a command keeps it so.
mod Stored
use unit_redis_ness.Prelude.{
  ℤ, ℕ, String, Bool, true, false, Option, none, some, List, [], ◌∷◌, ◌==◌, if◌then◌else◌,
  Option-cases, Bool-cases, refl, inl, inr,
}
use unit_redis_ness.Dictionary
use unit_redis_ness.Dictionary.{lookup, insert, without}
use unit_redis_ness.Dictionary.Laws.{IsDistinct, put-IsDistinct, remove-IsDistinct, remove-items}
use unit_redis_ness.Outcome.{Outcome, returns, throws}
use unit_redis_ness.DatabaseValue.{
  DatabaseValue, Payload, string, list, set, hash, zset, get_set, get_hash,
}
use unit_redis_ness.Database
use unit_redis_ness.Database.{Database, database_value_truthy, has_lapsed}
use unit_redis_ness.Command.{
  Request, Store, Command, Event, continue, ◌>>=◌, pure, lift, get, put, remove, emit,
}
use unit_redis_ness.SetCommands.Laws.{IsSetList}
pub use Stored.{
  IsSoundPayload, IsSoundItem, IsSound, put-IsSound, remove-IsSound, get-IsSound, get-IsSoundItem,
  rename-IsSound, put_if_present-IsSound, put_if_absent-IsSound,
}

-- What a command that throws returns is nothing.
abbrev pub OnReturn : {A : Type 0} → (A → Type 0) → Outcome A → Type 0
OnReturn Q (returns a) = Q a
OnReturn Q (throws m) = Unit

abbrev pub Any : {A : Type 0} → A → Type 0
Any a = Unit

-- The action keeps the data sound, and what it returns fulfils Q.
pub record Sound {A : Type 0} (Q : A → Type 0) (m : Command A) : Type 0 where
  pub run : (s : Store) → IsSound s.db → IsSound (m s).1.db × OnReturn Q (m s).0

module _ {A B : Type 0} {Q : A → Type 0} {R : B → Type 0} where
  Sound-continue :
      (o : Outcome A) (f : A → Command B)
      → OnReturn Q o
      → ((a : A) → Q a → Sound R (f a))
      → Sound R (continue o f)
  Sound-continue (returns a) f q after = after a q
  Sound-continue (throws m) f q after = record { run = λ s h. (h, tt) }

  pub Sound-bind :
      {m : Command A} {f : A → Command B}
      → Sound Q m
      → ((a : A) → Q a → Sound R (f a))
      → Sound R (m >>= f)
  Sound-bind {m = m} {f = f} before after = record {
    run = λ s h.
        let (kept, q) = before.run s h in (Sound-continue (m s).0 f q after).run (m s).1 kept;
  }

module _ {A : Type 0} {Q : A → Type 0} where
  pub Sound-pure : (a : A) → Q a → Sound Q (pure a)
  Sound-pure a q = record { run = λ s h. (h, q) }

  pub Sound-lift : (o : Outcome A) → OnReturn Q o → Sound Q (lift o)
  Sound-lift o q = record { run = λ s h. (h, q) }

  pub Sound-if : {m n : Command A} (b : Bool) → Sound Q m → Sound Q n → Sound Q (if b then m else n)
  Sound-if true here there = here
  Sound-if false here there = there

module _ {A C : Type 0} {Q : A → Type 0} where
  pub Sound-option :
      {m : Command A} {f : C → Command A} (o : Option C)
      → Sound Q m
      → ((c : C) → Sound Q (f c))
      → Sound Q (elim o as (λ _. Command A) [ none ↦ m | some c ↦ f c ])
  Sound-option none absent there = absent
  Sound-option (some c) absent there = there c

pub any : {A : Type 0} (o : Outcome A) → OnReturn Any o
any (returns a) = tt
any (throws m) = tt

pub Sound-get : (r : Request) (key : String) → Sound IsSoundItem (get r key)
Sound-get r key = record {
  run = λ s h. (get-IsSound s.db h r.now key, get-IsSoundItem s.db h r.now key);
}

pub Sound-put : (key : String) (v : DatabaseValue) → IsSoundPayload v.value → Sound Any (put key v)
Sound-put key v new = record { run = λ s h. (put-IsSound s.db h key v new, tt) }

pub Sound-remove : (key : String) → Sound Any (remove key)
Sound-remove key = record { run = λ s h. (remove-IsSound s.db h key, tt) }

pub Sound-emit : (es : List Event) → Sound Any (emit es)
Sound-emit es = record { run = λ s h. (h, tt) }

-- The type check lets a set and a hash out.
set_of :
    (p : Payload) (t : Option ℤ)
    → IsSoundPayload p
    → OnReturn IsSetList (get_set (record { value = p; expired_at = t }))
unfolding get_set
set_of (string s) t h = tt
set_of (list l) t h = tt
set_of (set m) t h = h
set_of (hash m) t h = tt
set_of (zset z) t h = tt

pub get_set-IsSetList :
    (v : DatabaseValue) → IsSoundPayload v.value → OnReturn IsSetList (get_set v)
get_set-IsSetList v h = set_of v.value v.expired_at h

hash_of :
    (p : Payload) (t : Option ℤ)
    → IsSoundPayload p
    → OnReturn (λ h. IsDistinct h.items) (get_hash (record { value = p; expired_at = t }))
unfolding get_hash
hash_of (string s) t h = tt
hash_of (list l) t h = tt
hash_of (set m) t h = tt
hash_of (hash m) t h = h
hash_of (zset z) t h = tt

pub get_hash-IsDistinct :
    (v : DatabaseValue) → IsSoundPayload v.value → OnReturn (λ h. IsDistinct h.items) (get_hash v)
get_hash-IsDistinct v h = hash_of v.value v.expired_at h
