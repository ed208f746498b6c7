-- ===== src/SortedSet/Removal.antt =====
-- src/resp/data/sorted-set.ts: `_remove` takes the entry out of the order.
pub mod Lists
mod Rounds
use unit_redis_ness.Prelude.{
  ℕ, zero, suc, ◌+◌, ◌-◌, ◌<◌, ◌≤◌, String, Bool, true, false, Option, none, some, List, [], ◌∷◌,
  ◌++◌, length, length-append, ℤ, pos, ◌≡◌, ◌≢◌, refl, sym, ap, ◌∙◌, inl, inr, Bool-cases, ltb,
  arith, ◌==◌, eq_refl, Option-cases,
}
use unit_redis_ness.Number.{Number, same, is_nan}
use unit_redis_ness.Dictionary.{Dictionary}
use unit_redis_ness.DatabaseValue.{SortedSet, Node, Level}
use unit_redis_ness.SortedSet.Heap.{
  Order, ◌>>=◌, node_at, level_at, next_of, enough, descend, comes_before, lowest,
}
use unit_redis_ness.SortedSet.Remove.{
  remove, remove_found, unlink_all, remove_node, unlink_back, is_entry, key_is, lower,
}
use unit_redis_ness.SortedSet.Chain.{
  Item, From, From-frame, From-append, From-next, From-end, From-tail, From-label, tower, last_at,
  label, entry, node_of-label,
}
use unit_redis_ness.SortedSet.Search.{All, Updates, descend_lem}
use unit_redis_ness.SortedSet.Writes.{prev_at, set_prev-Writes, WritesPrev, prev_at-eq}
use unit_redis_ness.SortedSet.Link.{NotIn, NotIn-append, Apart}
use unit_redis_ness.SortedSet.Link.Rounds.{Keeps}
use unit_redis_ness.SortedSet.Shape.{
  OrderLaws, IsSkipList, IsSorted, IsLinked, AllLinked, precedes, Backs, last_of, same_refl,
  comes_before-Reads,
}
use unit_redis_ness.SortedSet.Insertion.Parts.{
  tower-zero, tower-above, AllLinked-front, Updates-first,
}
use unit_redis_ness.SortedSet.Insertion.Lists.{
  Apart-NotIn, Backs-same, Apart-middle, Backs-append, Backs-join, Backs-frame, last_of-append,
}
use unit_redis_ness.SortedSet.Insertion.{prev_write}
use unit_redis_ness.SortedSet.Removal.Lists.{
  Apart-delete, AllLinked-delete, AllLinked-resize, IsSorted-delete, lower_lem,
}
use unit_redis_ness.SortedSet.Removal.Rounds.{Unlinking, unlink_all-Unlinking}

-- The state after `_removeNode`, by its parts.
cut : SortedSet → List Node → Option ℕ → ℕ → SortedSet
cut s h tail level = record s { length = s.length - 1; nodes = h; tail = tail; level = level }

-- `_removeNode`, step by step.
remove_node-eq :
    (node : ℕ) (update : List (ℕ × ℤ)) (s : SortedSet) (h g : List Node) (n : Node)
    (next : Option ℕ) (tail : Option ℕ) (level : ℕ)
    → unlink_all node 0 update s.nodes ≡ some h
    → node_at h node ≡ some n
    → next_of h node 0 ≡ some next
    → unlink_back next n.prev h s.tail ≡ some (g, tail)
    → lower g s.head s.level ≡ some level
    → remove_node node update s ≡ some (record s { nodes = g; tail = tail; level = level })
unfolding remove_node
remove_node-eq node update s h g n next tail level e e1 e2 e3 e4 = rw (e, e1, e2, e3, e4)

-- `_remove` of an entry that the search finds.
remove-eq :
    (o : Order) (x : Item) (s s' : SortedSet) (update : List (ℕ × ℤ)) (first : ℕ × ℤ) (n : Node)
    → descend (comes_before o x.key x.score) s.nodes (enough s) s.level s.head (pos 0) ≡ some update
    → lowest update ≡ some first
    → next_of s.nodes first.0 0 ≡ some (some x.at)
    → node_at s.nodes x.at ≡ some n
    → is_entry x.key x.score n ≡ true
    → remove_node x.at update s ≡ some s'
    → remove o x.key x.score s ≡ some (record s' { length = s'.length - 1 })
unfolding remove remove_found
remove-eq o x s s' update first n e e1 e2 e3 e4 e5 = rw (e, e1, e2, e3, ◌>>=◌, e4, e5)

module _ (o : Order) (laws : OrderLaws o) (s : SortedSet) (x : Item) (front back : List Item)
    (k : IsSkipList o s (front ++ (x ∷ back))) where
  cut-IsSkipList :
      (h : List Node) (tail : Option ℕ)
      → ((i : ℕ) → i < 32 → From h i s.head (tower i (front ++ back)))
      → length h ≡ length s.nodes
      → Backs h none (front ++ back)
      → tail ≡ last_of none (front ++ back)
      → (level : ℕ) × (lower h s.head s.level ≡ some level)
        × IsSkipList o (cut s h tail level) (front ++ back)
  unfolding cut
  cut-IsSkipList h tail chains size backs ends =
      let linked =
        AllLinked-resize (length s.nodes) (length h) s.level (front ++ back) (omega (arith, size))
          (AllLinked-delete (length s.nodes) s.level x front back k.linked) in
      let (level, e, some_level, few, linked') =
        lower_lem (length h) s.head s.level h (front ++ back) k.some_level k.few_levels chains
          linked in
      (
        level,
        e,
        record {
          chains = chains;
          counted =
              omega (arith, k.counted, length-append front back, length-append front (x ∷ back));
          some_level = some_level;
          few_levels = few;
          linked = linked';
          apart = Apart-delete s.head x front back k.apart;
          head_made = omega (arith, k.head_made, size);
          sorted = (IsSorted-delete o laws x front back k.sorted).0;
          backs = backs;
          ends = ends;
        },
      )

  -- What the rounds of the removal leave.
  record IsOpen (h : List Node) : Type 0 where
    chains : (i : ℕ) → i < 32 → From h i s.head (tower i (front ++ back))
    next : next_of h x.at 0 ≡ next_of s.nodes x.at 0
    keeps : Keeps s.nodes h

  whole : From s.nodes 0 s.head (front ++ (x ∷ back))
  whole =
      rw (tower-zero (length s.nodes) s.level (front ++ (x ∷ back)) k.linked) at
        (k.chains 0 (omega arith))

  behind : From s.nodes 0 (last_at s.head front) (x ∷ back)
  behind = From-append front whole

  out : NotIn x.at front × NotIn x.at back
  out = Apart-middle s.head x front back k.apart

  head_ne : s.head ≢ x.at
  head_ne p = (NotIn-append s.head front (x ∷ back) (Apart-NotIn s.head _ k.apart)).1.0 (sym p)

  unlink_all-IsOpen :
      (update : List (ℕ × ℤ))
      → Updates s.head front 0 update
      → length update ≡ s.level
      → (h : List Node) × (unlink_all x.at 0 update s.nodes ≡ some h) × IsOpen h
  unfolding next_of
  unlink_all-IsOpen update us n =
      let (h, e, u, keeps) =
        unlink_all-Unlinking s.nodes x front back s.head k.apart out.0 out.1 head_ne us
          (omega (arith, n, k.few_levels))
          (record {
            todo = λ j le lt. k.chains j lt;
            done = λ j lt. absurd (omega arith);
            still = λ j. refl;
          }) in
      (
        h,
        e,
        record {
          chains = λ i lt. elim (Bool-cases (ltb i s.level)) [
            | inl low ↦ u.done i (ground (arith, n)) lt
            | inr high ↦
                let above = tower-above (length s.nodes) s.level i in
                let linked = AllLinked-delete (length s.nodes) s.level x front back k.linked in
                let none_above = above (front ++ (x ∷ back)) k.linked (ground arith) in
                let none_left = above (front ++ back) linked (ground arith) in
                rw none_left (rw none_above at (u.todo i (ground (arith, n)) lt))
          ];
          next = rw (u.still 0);
          keeps = keeps;
        },
      )

  -- Where the search ends, the next node is that of the entry.
  found :
      (update : List (ℕ × ℤ)) × (first : ℕ × ℤ) × (descend
          (comes_before o x.key x.score)
          s.nodes
          (enough s)
          s.level
          s.head
          (pos 0)
        ≡ some update)
      × (lowest update ≡ some first)
      × (next_of s.nodes first.0 0 ≡ some (some x.at))
      × Updates s.head front 0 update
      × (length update ≡ s.level)
  unfolding last_at
  found =
      let (sorted, passes, fails) = IsSorted-delete o laws x front back k.sorted in
      let linked = AllLinked-front (length s.nodes) s.level front (x ∷ back) k.linked in
      let (update, e, us, n) =
        descend_lem (comes_before o x.key x.score) (precedes o x.key x.score)
          (comes_before-Reads o laws x.key x.score) s.nodes s.head (enough s) front (x ∷ back)
          passes fails (omega (arith, k.counted)) s.level s.head (pos 0)
          (λ i lt. k.chains i (omega (arith, k.few_levels)))
          (rw (tower-above (length s.nodes) s.level s.level front linked (omega arith))) in
      let (r, first) = Updates-first us (omega (arith, n, k.some_level)) in
      (
        update,
        (last_at s.head (tower 0 front), r),
        e,
        first,
        rw (tower-zero (length s.nodes) s.level front linked) (From-next behind),
        us,
        n,
      )

module _ (o : Order) (laws : OrderLaws o) (s : SortedSet) (x : Item) (front : List Item) where
  removed :
      (back : List Item) (k : IsSkipList o s (front ++ (x ∷ back))) (update : List (ℕ × ℤ))
      (h : List Node) (n : Node)
      → unlink_all x.at 0 update s.nodes ≡ some h
      → node_at h x.at ≡ some n
      → IsOpen o laws s x front back k h
      → (s' : SortedSet) × (remove_node x.at update s ≡ some s')
        × IsSkipList o (record s' { length = s'.length - 1 }) (front ++ back)
        × (s'.scores ≡ s.scores)
  unfolding unlink_back cut last_of
  removed [] k update h n e there c =
      let next = c.next ∙ From-end (From-tail (behind o laws s x front [] k)) in
      let parts = Backs-append s.nodes none front (x ∷ []) k.backs in
      let prev : n.prev ≡ last_of none front =
        sym (prev_at-eq h x.at n there) ∙ c.keeps.prevs x.at ∙ parts.1.0 in
      let backs =
        Backs-join h none front [] (Backs-same s.nodes h none front c.keeps.prevs parts.0) tt in
      let (level, low, k') =
        cut-IsSkipList o laws s x front [] k h n.prev c.chains c.keeps.size backs
          (prev ∙ sym (last_of-append none front [])) in
      (
        record s { nodes = h; tail = n.prev; level = level },
        remove_node-eq x.at update s h h n none n.prev level e there next refl low,
        k',
        refl,
      )
  removed (z ∷ zs) k update h n e there c =
      let after = From-tail (behind o laws s x front (z ∷ zs) k) in
      let next = c.next ∙ From-next after in
      let parts = Backs-append s.nodes none front (x ∷ (z ∷ zs)) k.backs in
      let prev : n.prev ≡ last_of none front =
        sym (prev_at-eq h x.at n there) ∙ c.keeps.prevs x.at ∙ parts.1.0 in
      let (g, e', w) =
        set_prev-Writes h z.at n.prev (some z.key, z.score)
          (c.keeps.labels z.at ∙ From-label after) in
      let (out_front, out_back) =
        Apart-middle s.head z front zs (Apart-delete s.head x front (z ∷ zs) k.apart) in
      let backs =
        Backs-join g none front (z ∷ zs)
          (Backs-frame h g z.at none front w.prevs out_front
            (Backs-same s.nodes h none front c.keeps.prevs parts.0))
          (
            w.self ∙ prev,
            Backs-frame h g z.at (some z.at) zs w.prevs out_back
                (Backs-same s.nodes h (some z.at) zs c.keeps.prevs parts.1.1.1),
          ) in
      let (level, low, k') =
        cut-IsSkipList o laws s x front (z ∷ zs) k g s.tail (λ i lt. prev_write w (c.chains i lt))
          (w.size ∙ c.keeps.size) backs
          (k.ends
            ∙ last_of-append none front (x ∷ (z ∷ zs))
            ∙ sym (last_of-append none front (z ∷ zs))) in
      (
        record s { nodes = g; tail = s.tail; level = level },
        remove_node-eq x.at update s h g n (some z.at) s.tail level e there next (rw e') low,
        k',
        refl,
      )

-- `_remove` of an entry of the set: the others stay, in their order.
pub remove_lem :
    (o : Order) (laws : OrderLaws o) (s : SortedSet) (x : Item) (front back : List Item)
    → IsSkipList o s (front ++ (x ∷ back))
    → is_nan x.score ≡ false
    → (s' : SortedSet) × (remove o x.key x.score s ≡ some s')
      × IsSkipList o s' (front ++ back)
      × (s'.scores ≡ s.scores)
unfolding is_entry key_is
remove_lem o laws s x front back k number =
    let (update, first, e, low, next, us, n) = found o laws s x front back k in
    let (h, e', c) = unlink_all-IsOpen o laws s x front back k update us n in
    let named = From-label (behind o laws s x front back k) in
    let (m, here, key, value) = node_of-label s.nodes x.at (some x.key) x.score named in
    let (m', here', key', value') =
      node_of-label h x.at (some x.key) x.score (c.keeps.labels x.at ∙ named) in
    let (s', e'', k', same) = removed o laws s x front back k update h m' e' here' c in
    (
      record s' { length = s'.length - 1 },
      remove-eq o x s s' update first m e low next here
          (rw (key, value, same_refl x.score number, eq_refl x.key)) e'',
      k',
      same,
    )
