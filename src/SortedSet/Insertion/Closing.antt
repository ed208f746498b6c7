-- ===== src/SortedSet/Insertion/Closing.antt =====
-- src/resp/data/sorted-set.ts, `_insert`: the state once the new node is linked on its levels.
use unit_redis_ness.Prelude.{
  ℕ, suc, ◌+◌, ◌-◌, ◌<◌, ◌≤◌, String, Bool, true, false, none, some, List, [], ◌∷◌, ◌++◌, length,
  length-append, length-replicate, replicate, ℤ, pos, ◌≡◌, ◌≢◌, refl, sym, ◌∙◌, inl, inr,
  Bool-cases, arith, ltb, ltb→lt, eqb, if◌then◌else◌,
}
use mathlib.Core.Path.{subst}
use unit_redis_ness.Number.{Number, is_nan}
use unit_redis_ness.DatabaseValue.{SortedSet, Node}
use unit_redis_ness.SortedSet.Heap.{Order, enough, descend, goes_before, lowest}
use unit_redis_ness.SortedSet.Insert.{insert, raise, link_all, finish, random_level}
use unit_redis_ness.SortedSet.Chain.{Item, From, From-frame, tower, last_at, label, entry}
use unit_redis_ness.SortedSet.Search.{All, Updates, Updates-append, descend_lem}
use unit_redis_ness.SortedSet.Writes.{
  append-Allocates, level_at-append, label-append, prev_at, depth_at,
}
use unit_redis_ness.SortedSet.Link.{NotIn}
use unit_redis_ness.SortedSet.Link.Rounds.{Linking, Keeps, link_all-Linking, tower-append_skip}
use unit_redis_ness.SortedSet.Shape.{
  OrderLaws, IsSkipList, AllLinked, precedes, goes_before-Reads, last_of,
}
use unit_redis_ness.SortedSet.Insertion.Parts.{
  random_level-le, raise_lem, tower-zero, tower-above, Updates-replicate, AllLinked-front,
  NotIn-made, Updates-first,
}
use unit_redis_ness.SortedSet.Insertion.Lists.{NoKey, NotIn-front, prev_lem}

abbrev update_of : List (ℕ × ℤ) → List Bool → SortedSet → List (ℕ × ℤ)
update_of found draws s =
    found ++ replicate {A = ℕ × ℤ} (random_level draws - s.level) (s.head, pos 0)

abbrev node_of : List Bool → String → Number → SortedSet → ℕ → Node
node_of draws key value s at = record {
  level = random_level draws;
  key = some key;
  value = value;
  next = [];
  prev = if eqb at s.head then none else some at;
}

-- The parts of `_insert` one after another.
insert-eq-finish :
    (o : Order) (draws : List Bool) (key : String) (value : Number) (s : SortedSet)
    (found : List (ℕ × ℤ)) (h1 h3 : List Node) (first : ℕ × ℤ)
    → descend (goes_before o key value) s.nodes (enough s) s.level s.head (pos 0) ≡ some found
    → raise s.head s.length (random_level draws - s.level) s.level s.nodes ≡ some h1
    → lowest (update_of found draws s) ≡ some first
    → length h1 ≡ length s.nodes
    → link_all
        (length s.nodes)
        first.1
        (random_level draws)
        0
        (update_of found draws s)
        (h1 ++ (node_of draws key value s first.0 ∷ []))
      ≡ some h3
    → insert o draws key value s ≡ finish (length s.nodes) (random_level draws) h3 s
unfolding insert
insert-eq-finish o draws key value s found h1 h3 first e e1 low size e3 = rw (e, e1, low, size, e3)

-- Every level holds the new node, if it is to: what is left is the pointer back.
pub record IsClosing (s : SortedSet) (x : Item) (front back : List Item) (h : List Node)
    : Type 0 where
  pub chains : (i : ℕ) → i < 32 → From h i s.head (tower i (front ++ (x ∷ back)))
  pub prevs : (c : ℕ) → x.at ≢ c → prev_at h c ≡ prev_at s.nodes c
  pub prev_new : prev_at h x.at ≡ last_of none front
  pub size : length h ≡ suc (length s.nodes)

module _ (o : Order) (laws : OrderLaws o) (draws : List Bool) (key : String) (value : Number)
    (s : SortedSet) (front back : List Item) (k : IsSkipList o s (front ++ back))
    (passes : All (precedes o key value) true front) (fails : All (precedes o key value) false back)
    (absent : NoKey key (front ++ back)) (number : is_nan value ≡ false) where
  abbrev pub new_item : Item
  new_item = record { at = length s.nodes; key = key; score = value; height = random_level draws }

  at0 : ℕ
  at0 = last_at s.head (tower 0 front)

  head_ne : s.head ≢ length s.nodes
  head_ne p = absurd (omega (arith, k.head_made))

  fresh : NotIn (length s.nodes) (front ++ back)
  fresh = NotIn-made (length s.nodes) s.level (front ++ back) k.linked

  linked_front : AllLinked (length s.nodes) s.level front
  linked_front = AllLinked-front (length s.nodes) s.level front back k.linked

  update_of-Updates :
      (found : List (ℕ × ℤ))
      → Updates s.head front 0 found
      → length found ≡ s.level
      → Updates s.head front 0 (update_of found draws s)
        × (length (update_of found draws s) ≡ s.level + (random_level draws - s.level))
  update_of-Updates found us n =
      let count = random_level draws - s.level in
      let above = replicate {A = ℕ × ℤ} count (s.head, pos 0) in
      let top : length found + 0 ≡ s.level = omega (arith, n) in
      (
        Updates-append above us (
            rw top (
              Updates-replicate s.head (length s.nodes) s.level front (pos 0) linked_front count
                s.level (omega arith))),
        omega (
          arith,
          n,
          length-append found above,
          length-replicate {A = ℕ × ℤ} count (s.head, pos 0),
        ),
      )

  module _ (h1 : List Node) (kept : Keeps s.nodes h1) where
    -- Before the first round the new node has no level.
    Linking-zero :
        ((i : ℕ) → i < 32 → From h1 i s.head (tower i (front ++ back)))
        → Linking new_item front back s.head (h1 ++ (node_of draws key value s at0 ∷ [])) 0
    Linking-zero chains =
        let node = node_of draws key value s at0 in
        let a = append-Allocates h1 node in
        record {
          todo = λ j le lt.
              From-frame (λ b l e. (l, level_at-append h1 node b j l e, refl))
                (λ b l e. label-append h1 node b l e) (chains j lt);
          done = λ j lt. absurd (omega arith);
          named =
              subst (λ (m : ℕ). label (h1 ++ (node ∷ [])) m ≡ entry new_item) kept.size a.label_new;
          deep = λ le.
              subst (λ (m : ℕ). depth_at (h1 ++ (node ∷ [])) m ≡ some 0) kept.size a.depth_new;
        }

    -- After the last round the node stands on all its levels.
    Linking-IsClosing :
        (h3 : List Node) (n : ℕ)
        → random_level draws ≤ n
        → Linking new_item front back s.head h3 n
        → Keeps (h1 ++ (node_of draws key value s at0 ∷ [])) h3
        → IsClosing s new_item front back h3
    unfolding at0
    Linking-IsClosing h3 n le linked keeps =
        let node = node_of draws key value s at0 in
        let a = append-Allocates h1 node in
        let behind = prev_lem s.head front (NotIn-front s.head front back k.apart) in
        let lowest = tower-zero (length s.nodes) s.level front linked_front in
        record {
          chains = λ i lt. elim (Bool-cases (ltb i n)) [
            | inl low ↦ linked.done i (ltb→lt i n low) lt
            | inr high ↦
                rw
                  (tower-append_skip new_item front back s.head k.apart head_ne fresh i
                    (ground arith))
                  (linked.todo i (ground arith) lt)
          ];
          prevs = λ c ne. keeps.prevs c ∙ a.prevs c (λ p. ne (sym kept.size ∙ p)) ∙ kept.prevs c;
          prev_new =
              keeps.prevs (length s.nodes)
              ∙ subst (λ (m : ℕ). prev_at (h1 ++ (node ∷ [])) m ≡ last_of none front) kept.size
                  (a.prev_new ∙ rw lowest behind);
          size = keeps.size ∙ omega (arith, length-append h1 (node ∷ []), kept.size);
        }

  pub insert-IsClosing :
      (h : List Node) × (insert o draws key value s
        ≡ finish (length s.nodes) (random_level draws) h s)
      × IsClosing s new_item front back h
  unfolding at0 last_at
  insert-IsClosing =
      let (found, e, us, n) =
        descend_lem (goes_before o key value) (precedes o key value)
          (goes_before-Reads o laws key value) s.nodes s.head (enough s) front back passes fails
          (omega (arith, k.counted)) s.level s.head (pos 0)
          (λ i lt. k.chains i (omega (arith, k.few_levels)))
          (let top =
              tower-above (length s.nodes) s.level s.level front linked_front (omega arith) in
            rw top) in
      let (h1, e1, chains1, kept) =
        raise_lem s.head s.length (random_level draws - s.level) s.level s.nodes
          (λ j. tower j (front ++ back)) (omega (arith, random_level-le draws, k.few_levels))
          k.chains in
      let (updates, many) = update_of-Updates found us n in
      let (r, first) = Updates-first updates (omega (arith, many, k.some_level)) in
      let (h3, e3, linked, keeps) =
        link_all-Linking new_item front back s.head k.apart head_ne fresh r updates
          (omega (arith, many, random_level-le draws, k.few_levels))
          (Linking-zero h1 kept chains1) in
      (
        h3,
        insert-eq-finish o draws key value s found h1 h3 (at0, r) e e1 first kept.size e3,
        Linking-IsClosing h1 kept h3 (length (update_of found draws s) + 0) (omega (arith, many))
            linked keeps,
      )
