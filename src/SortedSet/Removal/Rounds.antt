-- ===== src/SortedSet/Removal/Rounds.antt =====
-- src/resp/data/sorted-set.ts, `_removeNode`: the loop that takes a node out of the levels.
use unit_redis_ness.Prelude.{
  ℕ, suc, ◌+◌, ◌<◌, ◌≤◌, true, false, none, some, List, [], ◌∷◌, ◌++◌, length, ℤ, pos, ◌+ℤ◌, ◌-ℤ◌,
  ◌≡◌, ◌≢◌, refl, sym, ap, ◌∙◌, inl, inr, Bool-cases, arith, ltb,
}
use mathlib.Core.Path.{subst}
use native.Mathlib.Decide.{ℕ_discrete}
use unit_redis_ness.DatabaseValue.{Node, Level}
use unit_redis_ness.SortedSet.Heap.{◌>>=◌, level_at, set_level}
use unit_redis_ness.SortedSet.Remove.{unlink, unlink_all, points_at}
use unit_redis_ness.SortedSet.Chain.{
  Item, tower, From, last, step, last_at, From-append, From-tail, From-level,
}
use unit_redis_ness.SortedSet.Search.{tower-append, tower-keep, tower-skip, Updates, nil, cons}
use unit_redis_ness.SortedSet.Writes.{Writes, set_level-Writes}
use unit_redis_ness.SortedSet.Link.{
  NotIn, Apart, NotIn-tower, NotIn-append, Apart-tower, frame-write, last_at-ne, last_at-ne_all,
}
use unit_redis_ness.SortedSet.Link.Rounds.{Keeps, Keeps-trans, keep_level}
use unit_redis_ness.SortedSet.Insertion.Parts.{span_write}

-- The level of the last node in front, and where it points.
points_at-item :
    (a : ℕ) {h : List Node} {i u : ℕ} (zs : List Item) (l : Level)
    → NotIn a zs
    → From h i u zs
    → level_at h u i ≡ some l
    → points_at l.next a ≡ false
unfolding points_at
points_at-item a [] l n (last {l = m} e stop) here = let to : l.next ≡ none = ground arith in rw to
points_at-item a (z ∷ zs) l n (step {l = m} e next b f) here =
    let to : l.next ≡ some z.at = ground arith in rw to (let ne = n.0 in ground arith)

module _ {h g : List Node} {i : ℕ} (x : Item) {l m : Level} where
  -- On its level the node x is taken out behind u.
  bypass_here :
      {u : ℕ} (zs : List Item)
      → NotIn u zs
      → level_at h x.at i ≡ some m
      → Writes h g u i l
      → l.next ≡ m.next
      → From h i x.at zs
      → From g i u zs
  bypass_here [] n there w e (last {l = k} e' stop) =
      let to : m.next ≡ none = ground arith in last w.self (e ∙ to)
  bypass_here {u} (z ∷ zs) n there w e (step {l = k} e' next b f) =
      let to : m.next ≡ some z.at = ground arith in
      step w.self (e ∙ to) (w.labels z.at ∙ b) (
        frame-write (λ c ne _. w.nodes c i ne) w.labels n.1 n.1 (λ p. n.0 (sym p))
          (λ p. n.0 (sym p)) f)

  bypass :
      (u0 : ℕ) {u : ℕ} (ys zs : List Item)
      → u ≡ last_at u0 ys
      → Apart u0 (ys ++ (x ∷ zs))
      → level_at h x.at i ≡ some m
      → Writes h g u i l
      → l.next ≡ m.next
      → From h i u0 (ys ++ (x ∷ zs))
      → From g i u0 (ys ++ zs)
  unfolding last_at
  bypass u0 [] zs e a there w next (step e' n b f) =
      subst (λ (p : ℕ). From g i p zs) e
        (bypass_here zs (subst (λ (p : ℕ). NotIn p zs) (sym e) a.0.1) there w next f)
  bypass u0 (y ∷ ys) zs e a there w next (step e' n b f) =
      let other = last_at-ne u0 y ys (NotIn-append u0 (y ∷ ys) (x ∷ zs) a.0).0 in
      step (w.nodes u0 i (λ p. other (sym e ∙ p)) ∙ e') n (w.labels y.at ∙ b)
        (bypass y.at ys zs e a.1 there w next f)

pub record Unlinking (h0 : List Node) (x : Item) (front back : List Item) (head : ℕ) (h : List Node)
    (i : ℕ) : Type 0 where
  pub todo : (j : ℕ) → i ≤ j → j < 32 → From h j head (tower j (front ++ (x ∷ back)))
  pub done : (j : ℕ) → j < i → j < 32 → From h j head (tower j (front ++ back))
  pub still : (j : ℕ) → level_at h x.at j ≡ level_at h0 x.at j

From-level_next :
    {h : List Node} {i u : ℕ} {x : Item} {xs : List Item}
    → From h i u (x ∷ xs)
    → (l : Level) × (level_at h u i ≡ some l) × (l.next ≡ some x.at)
From-level_next (step {l = l} e n b f) = (l, e, n)

module _ (a i u : ℕ) (h : List Node) (l : Level) (here : level_at h u i ≡ some l)
    {g : List Node} where
  unlink_hit :
      (m : Level)
      → l.next ≡ some a
      → level_at h a i ≡ some m
      → set_level h u i (record { next = m.next; span = l.span +ℤ (m.span -ℤ pos 1) }) ≡ some g
      → unlink a i u h ≡ some g
  unfolding unlink points_at
  unlink_hit m to there e =
      let hit : points_at l.next a ≡ true = rw to (ground arith) in rw (here, ◌>>=◌, hit, there) e

  unlink_miss :
      points_at l.next a ≡ false
      → set_level h u i (record l { span = l.span -ℤ pos 1 }) ≡ some g
      → unlink a i u h ≡ some g
  unfolding unlink
  unlink_miss miss e = rw (here, ◌>>=◌, miss) e

module _ (h0 : List Node) (x : Item) (front back : List Item) (head : ℕ)
    (apart : Apart head (front ++ (x ∷ back))) (out : NotIn x.at front) (out' : NotIn x.at back)
    (ne : head ≢ x.at) where
  Unlinking-suc :
      {h g : List Node} {i u : ℕ} {l : Level}
      → Unlinking h0 x front back head h i
      → Writes h g u i l
      → u ≢ x.at
      → From g i head (tower i (front ++ back))
      → Unlinking h0 x front back head g (suc i)
  Unlinking-suc {g = g} {i = i} k w other here = record {
    todo = λ j le lt. keep_level w.levels w.labels (omega arith) (k.todo j (omega arith) lt);
    done = λ j le lt. elim (ℕ_discrete i j) [
      | yes e ↦ subst (λ (m : ℕ). From g m head (tower m (front ++ back))) e here
      | no level ↦ keep_level w.levels w.labels level (k.done j (omega arith) lt)
    ];
    still = λ j. w.nodes x.at j other ∙ k.still j;
  }

  Unlinked : List Node → ℕ → ℕ → Type 0
  Unlinked h i u =
      (g : List Node) × (unlink x.at i u h ≡ some g)
      × Unlinking h0 x front back head g (suc i)
      × Keeps h g

  unlink_round :
      (h : List Node) (i u : ℕ)
      → i < 32
      → u ≡ last_at head (tower i front)
      → Unlinking h0 x front back head h i
      → Unlinked h i u
  unfolding Unlinked
  unlink_round h i u lt at k =
      let other : u ≢ x.at = λ p.
        last_at-ne_all x.at head (tower i front) ne (NotIn-tower x.at i front out) (sym at ∙ p) in
      let whole = k.todo i (omega arith) lt in
      let split = tower-append i front (x ∷ back) in
      elim (Bool-cases (ltb i x.height)) [
        | inl low ↦
            let all = split ∙ ap (◌++◌ (tower i front)) (tower-keep i x back low) in
            let chain = subst (λ (m : List Item). From h i head m) all whole in
            let once =
              subst (λ (m : List Item). Apart head m) all
                (Apart-tower head i (front ++ (x ∷ back)) apart) in
            let behind =
              subst (λ (m : ℕ). From h i m (x ∷ tower i back)) (sym at)
                (From-append (tower i front) chain) in
            let (l, here, to) = From-level_next behind in
            let (m, there) = From-level (From-tail behind) in
            let level : Level = record { next = m.next; span = l.span +ℤ (m.span -ℤ pos 1) } in
            let (g, e, w, deep) = set_level-Writes h u i level l here in
            (
              g,
              unlink_hit x.at i u h l here m to there e,
              Unlinking-suc k w other (
                  rw (tower-append i front back)
                    (bypass x head (tower i front) (tower i back) at once there w refl chain)),
              record { labels = w.labels; prevs = w.prevs; size = w.size },
            )
        | inr high ↦
            let same =
              tower-append i front (x ∷ back)
              ∙ ap (◌++◌ (tower i front)) (tower-skip i x back high) in
            let chain = subst (λ (m : List Item). From h i head m) same whole in
            let behind =
              subst (λ (m : ℕ). From h i m (tower i back)) (sym at)
                (From-append (tower i front) chain) in
            let (l, here) = From-level behind in
            let miss =
              points_at-item x.at (tower i back) l (NotIn-tower x.at i back out') behind here in
            let level : Level = record { next = l.next; span = l.span -ℤ pos 1 } in
            let (g, e, w, deep) = set_level-Writes h u i level l here in
            (
              g,
              unlink_miss x.at i u h l here miss e,
              Unlinking-suc k w other
                  (rw (tower-append i front back) (span_write here refl w chain)),
              record { labels = w.labels; prevs = w.prevs; size = w.size },
            )
      ]

  pub unlink_all-Unlinking :
      {update : List (ℕ × ℤ)} {h : List Node} {i : ℕ}
      → Updates head front i update
      → length update + i ≤ 32
      → Unlinking h0 x front back head h i
      → (g : List Node) × (unlink_all x.at i update h ≡ some g)
        × Unlinking h0 x front back head g (length update + i)
        × Keeps h g
  unfolding unlink_all Unlinked
  unlink_all-Unlinking {h = h} {i = i} nil few k = (
    h,
    refl,
    (let e : 0 + i ≡ i = omega arith in rw e k),
    record { labels = λ c. refl; prevs = λ c. refl; size = refl },
  )
  unlink_all-Unlinking {h = h} {i = i} (cons {u = u} r {rest} e us) few k =
      let (g, e', k', keeps) = unlink_round h i u (omega arith) e k in
      let (g', e'', k'', keeps') = unlink_all-Unlinking us (omega arith) k' in
      let index : suc (length rest) + i ≡ length rest + suc i = omega arith in
      (g', rw e' e'', rw index k'', Keeps-trans keeps keeps')
