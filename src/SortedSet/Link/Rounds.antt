-- ===== src/SortedSet/Link/Rounds.antt =====
-- src/resp/data/sorted-set.ts, `_insert`: all rounds of the loops over the levels.
use unit_redis_ness.Prelude.{
  ℕ, suc, ◌+◌, ◌<◌, ◌≤◌, true, false, some, List, ◌∷◌, ◌++◌, length, ℤ, pos, ◌+ℤ◌, ◌-ℤ◌, ◌≡◌, ◌≢◌,
  refl, sym, ap, ◌∙◌, inl, inr, Bool-cases, arith, ltb, if◌then◌else◌,
}
use mathlib.Core.Path.{subst}
use native.Mathlib.Decide.{ℕ_discrete}
use unit_redis_ness.DatabaseValue.{Node}
use unit_redis_ness.SortedSet.Heap.{level_at}
use unit_redis_ness.SortedSet.Insert.{link, widen, link_all}
use unit_redis_ness.SortedSet.Chain.{
  Item, label, entry, tower, From, last_at, From-append, From-frame, From-level,
}
use unit_redis_ness.SortedSet.Search.{tower-append, tower-keep, tower-skip, Updates, nil, cons}
use unit_redis_ness.SortedSet.Writes.{set_level-Writes, prev_at, depth_at}
use unit_redis_ness.SortedSet.Link.{
  NotIn, Apart, NotIn-tower, NotIn-append, Apart-tower, link-Linked, relink, last_at-ne_all,
}

-- Entries, `prev` pointers and the number of nodes stay.
pub record Keeps (h g : List Node) : Type 0 where
  pub labels : (c : ℕ) → label g c ≡ label h c
  pub prevs : (c : ℕ) → prev_at g c ≡ prev_at h c
  pub size : length g ≡ length h

pub Keeps-trans : {f g h : List Node} → Keeps f g → Keeps g h → Keeps f h
Keeps-trans a b = record {
  labels = λ c. b.labels c ∙ a.labels c;
  prevs = λ c. b.prevs c ∙ a.prevs c;
  size = b.size ∙ a.size;
}

-- What is true of one level stays when another level is written.
pub keep_level :
    {h g : List Node} {i j u : ℕ} {xs : List Item}
    → ((c k : ℕ) → i ≢ k → level_at g c k ≡ level_at h c k)
    → ((c : ℕ) → label g c ≡ label h c)
    → i ≢ j
    → From h j u xs
    → From g j u xs
keep_level {j = j} levels labels ne f =
    From-frame (λ a l e. (l, levels a j ne ∙ e, refl)) (λ a k e. labels a ∙ e) f

module _ (x : Item) (front back : List Item) (head : ℕ) where
  -- Before round i: below i the node is linked, from i on it is not.
  pub record Linking (h : List Node) (i : ℕ) : Type 0 where
    pub todo : (j : ℕ) → i ≤ j → j < 32 → From h j head (tower j (front ++ back))
    pub done : (j : ℕ) → j < i → j < 32 → From h j head (tower j (front ++ (x ∷ back)))
    pub named : label h x.at ≡ entry x
    pub deep : i ≤ x.height → depth_at h x.at ≡ some i

module _ (x : Item) (front back : List Item) (head : ℕ) (apart : Apart head (front ++ back))
    (new : head ≢ x.at) (fresh : NotIn x.at (front ++ back)) where
  tower-append_keep :
      (i : ℕ)
      → ltb i x.height ≡ true
      → tower i (front ++ (x ∷ back)) ≡ tower i front ++ (x ∷ tower i back)
  tower-append_keep i low =
      tower-append i front (x ∷ back) ∙ ap (◌++◌ (tower i front)) (tower-keep i x back low)

  pub tower-append_skip :
      (i : ℕ) → ltb i x.height ≡ false → tower i (front ++ (x ∷ back)) ≡ tower i (front ++ back)
  tower-append_skip i high =
      tower-append i front (x ∷ back)
      ∙ ap (◌++◌ (tower i front)) (tower-skip i x back high)
      ∙ sym (tower-append i front back)

  -- The next state of the rounds, by what happens on level i.
  Linking-suc :
      {h g : List Node} {i : ℕ}
      → Linking x front back head h i
      → ((c k : ℕ) → i ≢ k → level_at g c k ≡ level_at h c k)
      → ((c : ℕ) → label g c ≡ label h c)
      → From g i head (tower i (front ++ (x ∷ back)))
      → (suc i ≤ x.height → depth_at g x.at ≡ some (suc i))
      → Linking x front back head g (suc i)
  Linking-suc {h} {g} {i} k levels labels here deep = record {
    todo = λ j le lt. keep_level levels labels (omega arith) (k.todo j (omega arith) lt);
    done = λ j le lt. elim (ℕ_discrete i j) [
      | yes e ↦ subst (λ (m : ℕ). From g m head (tower m (front ++ (x ∷ back)))) e here
      | no other ↦ keep_level levels labels other (k.done j (omega arith) lt)
    ];
    named = labels x.at ∙ k.named;
    deep = deep;
  }

  link_round :
      (h : List Node) (i u : ℕ) (d : ℤ)
      → ltb i x.height ≡ true
      → i < 32
      → u ≡ last_at head (tower i front)
      → Linking x front back head h i
      → (g : List Node) × (link x.at d i u h ≡ some g)
        × Linking x front back head g (suc i)
        × Keeps h g
  link_round h i u d low lt at k =
      let chain = rw (tower-append i front back) at (k.todo i (omega arith) lt) in
      let away = rw (tower-append i front back) at (NotIn-tower x.at i (front ++ back) fresh) in
      let once = rw (tower-append i front back) at (Apart-tower head i (front ++ back) apart) in
      let (l, here) = From-level (From-append (tower i front) chain) in
      let there : level_at h u i ≡ some l = ap (λ (p : ℕ). level_at h p i) at ∙ here in
      let ne : u ≢ x.at = λ p.
        last_at-ne_all x.at head (tower i front) new
          (NotIn-append x.at (tower i front) (tower i back) away).0 (sym at ∙ p) in
      let (g, e, m) = link-Linked h x u i d l ne there (k.deep (ground arith)) in
      (
        g,
        e,
        Linking-suc k m.levels m.labels
            (rw (tower-append_keep i low)
              (relink there m k.named head (tower i front) (tower i back) at once new away chain))
            (λ le. m.depth),
        record { labels = m.labels; prevs = m.prevs; size = m.size },
      )

  widen_round :
      (h : List Node) (i u : ℕ)
      → ltb i x.height ≡ false
      → i < 32
      → u ≡ last_at head (tower i front)
      → Linking x front back head h i
      → (g : List Node) × (widen i u h ≡ some g) × Linking x front back head g (suc i) × Keeps h g
  unfolding widen
  widen_round h i u high lt at k =
      let whole = k.todo i (omega arith) lt in
      let chain = rw (tower-append i front back) at whole in
      let (l, here) = From-level (From-append (tower i front) chain) in
      let there : level_at h u i ≡ some l = ap (λ (p : ℕ). level_at h p i) at ∙ here in
      let (g, e, w, deep) = set_level-Writes h u i (record l { span = l.span +ℤ pos 1 }) l there in
      (
        g,
        rw there e,
        Linking-suc k w.levels w.labels
            (rw (tower-append_skip i high) (
              From-frame
                (λ a m found. elim (ℕ_discrete u a) [
                  | yes same ↦ (
                    record l { span = l.span +ℤ pos 1 },
                    rw (← same) w.self,
                    (let one : level_at h a i ≡ some l = rw (← same) there in cc),
                  )
                  | no other ↦ (m, w.nodes a i other ∙ found, refl)
                ])
                (λ a key found. w.labels a ∙ found) whole))
            (λ le. absurd (ground arith)),
        record { labels = w.labels; prevs = w.prevs; size = w.size },
      )

  -- All rounds are made, whatever the ranks.
  pub link_all-Linking :
      (rank : ℤ) {update : List (ℕ × ℤ)} {h : List Node} {i : ℕ}
      → Updates head front i update
      → length update + i ≤ 32
      → Linking x front back head h i
      → (g : List Node) × (link_all x.at rank x.height i update h ≡ some g)
        × Linking x front back head g (length update + i)
        × Keeps h g
  unfolding link_all
  link_all-Linking rank {h = h} {i = i} nil few k = (
    h,
    refl,
    (let e : 0 + i ≡ i = omega arith in rw e k),
    record { labels = λ c. refl; prevs = λ c. refl; size = refl },
  )
  link_all-Linking rank {h = h} {i = i} (cons {u = u} r {rest} e us) few k =
      let next =
        elim (Bool-cases (ltb i x.height))
          as (λ _.
            (g : List Node) × ((if ltb i x.height then link x.at (rank -ℤ r) i u h else widen i u h)
              ≡ some g)
            × Linking x front back head g (suc i)
            × Keeps h g) [
              | inl low ↦ rw low (link_round h i u (rank -ℤ r) low (omega arith) e k)
              | inr high ↦ rw high (widen_round h i u high (omega arith) e k)
            ] in
      let (g, e', k', keeps) = next in
      let (g', e'', k'', keeps') = link_all-Linking rank us (omega arith) k' in
      let index : suc (length rest) + i ≡ length rest + suc i = omega arith in
      (g', rw e' e'', rw index k'', Keeps-trans keeps keeps')
