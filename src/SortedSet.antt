-- ===== src/SortedSet.antt =====
-- src/resp/data/sorted-set.ts: the empty set, and the operations that read the scores alone. The
-- children model the skip list.
pub mod Chain
pub mod Change
pub mod Entries
pub mod Heap
pub mod Insert
pub mod Insertion
pub mod Link
pub mod Listing
pub mod Removal
pub mod Refinement
pub mod Remove
pub mod Search
pub mod Shape
pub mod Writes
use unit_redis_ness.Prelude.{
  ℕ, zero, suc, String, Bool, true, false, Option, none, some, List, [], ◌∷◌, pos,
}
use unit_redis_ness.Number.{Number, integer}
use unit_redis_ness.Dictionary
use unit_redis_ness.DatabaseValue.{SortedSet, Node, Level}

-- `new Level(null, 0)`, n times.
unfoldable pub new_levels : ℕ → List Level
new_levels zero = []
new_levels (suc n) = record { next = none; span = pos 0 } ∷ new_levels n

abbrev pub new_head : Node
new_head = record {
  level = 32;
  key = none;
  value = integer (pos 0);
  next = new_levels 32;
  prev = none;
}

-- `new SortedSet()`: the constructor calls `empty`.
abbrev pub empty : SortedSet
empty = record {
  length = 0;
  nodes = new_head ∷ [];
  head = 0;
  tail = none;
  level = 1;
  scores = Dictionary.empty;
}

abbrev pub card : SortedSet → ℕ
card s = s.length

unfoldable pub score : SortedSet → String → Option Number
score s key = Dictionary.get s.scores key

-- Alias for `score`
unfoldable pub get : SortedSet → String → Option Number
unfolding score
get s key = score s key

is_defined : Option Number → Bool
is_defined none = false
is_defined (some n) = true

unfoldable pub has : SortedSet → String → Bool
unfolding is_defined
has s key = is_defined (Dictionary.get s.scores key)
