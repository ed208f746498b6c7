-- ===== src/SortedSet/Link.antt =====
-- src/resp/data/sorted-set.ts, `_insert`: the loops that link a new node into the levels.
pub mod Rounds
use unit_redis_ness.Prelude.{
  ℕ, zero, suc, ◌+◌, ◌<◌, ◌≤◌, String, Bool, true, false, Option, none, some, List, [], ◌∷◌, ◌++◌,
  length, ℤ, pos, ◌+ℤ◌, ◌-ℤ◌, ◌≡◌, ◌≢◌, refl, sym, ◌∙◌, inl, inr, Bool-cases, arith, ltb,
  if◌then◌else◌,
}
use unit_redis_ness.DatabaseValue.{Node, Level}
use unit_redis_ness.SortedSet.Heap.{◌>>=◌, level_at, set_level}
use unit_redis_ness.SortedSet.Insert.{push_level, link, widen, link_all}
use unit_redis_ness.SortedSet.Chain.{
  Item, label, entry, tower, From, last, step, last_at, From-append, From-frame,
}
use unit_redis_ness.SortedSet.Search.{tower-append, tower-keep, tower-skip, Updates, nil, cons}
use unit_redis_ness.SortedSet.Writes.{
  Writes, set_level-Writes, push_level-Writes, prev_at, depth_at,
}

abbrev pub NotIn : ℕ → List Item → Type 0
NotIn a [] = Unit {0}
NotIn a (x ∷ xs) = (x.at ≢ a) × NotIn a xs

-- No two of the node u and the items have one address.
abbrev pub Apart : ℕ → List Item → Type 0
Apart u [] = Unit {0}
Apart u (x ∷ xs) = NotIn u (x ∷ xs) × Apart x.at xs

pub NotIn-tower : (a i : ℕ) (xs : List Item) → NotIn a xs → NotIn a (tower i xs)
unfolding tower
NotIn-tower a i [] n = tt
NotIn-tower a i (x ∷ xs) n = elim (Bool-cases (ltb i x.height)) [
  | inl e ↦ rw e (n.0, NotIn-tower a i xs n.1)
  | inr e ↦ rw e (NotIn-tower a i xs n.1)
]

Apart-skip : (u : ℕ) (x : Item) (xs : List Item) → Apart u (x ∷ xs) → Apart u xs
Apart-skip u x [] a = tt
Apart-skip u x (y ∷ ys) a = (a.0.1, a.1.1)

pub Apart-tower : (u i : ℕ) (xs : List Item) → Apart u xs → Apart u (tower i xs)
unfolding tower
Apart-tower u i [] a = tt
Apart-tower u i (x ∷ xs) a = elim (Bool-cases (ltb i x.height)) [
  | inl e ↦ rw e ((a.0.0, NotIn-tower u i xs a.0.1), Apart-tower x.at i xs a.1)
  | inr e ↦ rw e (Apart-tower u i xs (Apart-skip u x xs a))
]

pub NotIn-append : (a : ℕ) (xs ys : List Item) → NotIn a (xs ++ ys) → NotIn a xs × NotIn a ys
NotIn-append a [] ys n = (tt, n)
NotIn-append a (x ∷ xs) ys n = let m = NotIn-append a xs ys n.1 in ((n.0, m.0), m.1)

pub last_at-ne : (a : ℕ) (x : Item) (xs : List Item) → NotIn a (x ∷ xs) → last_at x.at xs ≢ a
unfolding last_at
last_at-ne a x [] n = n.0
last_at-ne a x (y ∷ ys) n = last_at-ne a y ys n.1

pub last_at-ne_all : (a u : ℕ) (xs : List Item) → u ≢ a → NotIn a xs → last_at u xs ≢ a
unfolding last_at
last_at-ne_all a u [] ne n = ne
last_at-ne_all a u (x ∷ xs) ne n = last_at-ne a x xs n

-- A chain without the nodes b and d stands whatever is written at these on its level.
pub frame-write :
    {h g : List Node} {i b d u : ℕ} {xs : List Item}
    → ((c : ℕ) → b ≢ c → d ≢ c → level_at g c i ≡ level_at h c i)
    → ((c : ℕ) → label g c ≡ label h c)
    → NotIn b xs
    → NotIn d xs
    → b ≢ u
    → d ≢ u
    → From h i u xs
    → From g i u xs
frame-write same named nb nd b d (last {u} {l} e stop) = last (same u b d ∙ e) stop
frame-write same named nb nd b d (step {u} {l} {x} e next w f) =
    step (same u b d ∙ e) next (named x.at ∙ w)
      (frame-write same named nb.1 nd.1 (λ p. nb.0 (sym p)) (λ p. nd.0 (sym p)) f)

-- What linking the node x behind u on level i leaves.
pub record Linked (h g : List Node) (x : Item) (u i : ℕ) (l : Level) : Type 0 where
  pub at_u : (m : Level) × (level_at g u i ≡ some m) × (m.next ≡ some x.at)
  pub at_new : (m : Level) × (level_at g x.at i ≡ some m) × (m.next ≡ l.next)
  pub nodes : (c : ℕ) → u ≢ c → x.at ≢ c → level_at g c i ≡ level_at h c i
  pub levels : (c j : ℕ) → i ≢ j → level_at g c j ≡ level_at h c j
  pub labels : (c : ℕ) → label g c ≡ label h c
  pub prevs : (c : ℕ) → prev_at g c ≡ prev_at h c
  pub depth : depth_at g x.at ≡ some (suc i)
  pub size : length g ≡ length h

pub link-Linked :
    (h : List Node) (x : Item) (u i : ℕ) (d : ℤ) (l : Level)
    → u ≢ x.at
    → level_at h u i ≡ some l
    → depth_at h x.at ≡ some i
    → (g : List Node) × (link x.at d i u h ≡ some g) × Linked h g x u i l
unfolding link
link-Linked h x u i d l ne here deep =
    let behind : Level = record { next = l.next; span = l.span -ℤ d } in
    let to_new : Level = record { next = some x.at; span = d +ℤ pos 1 } in
    let (h', e, w, deep') = push_level-Writes h x.at i behind deep in
    let still = w.nodes u i (λ p. ne (sym p)) ∙ here in
    let (g, e', w', deeper) = set_level-Writes h' u i to_new l still in
    (
      g,
      rw here (rw e e'),
      record {
        at_u = (to_new, w'.self, refl);
        at_new = (behind, w'.nodes x.at i ne ∙ w.self, refl);
        nodes = λ c other fresh. w'.nodes c i other ∙ w.nodes c i fresh;
        levels = λ c j other. w'.levels c j other ∙ w.levels c j other;
        labels = λ c. w'.labels c ∙ w.labels c;
        prevs = λ c. w'.prevs c ∙ w.prevs c;
        depth = w'.depths x.at ne ∙ deep';
        size = w'.size ∙ w.size;
      },
    )

module _ {h g : List Node} {x : Item} {i u : ℕ} {l : Level} (here : level_at h u i ≡ some l)
    (k : Linked h g x u i l) (named : label h x.at ≡ entry x) where
  relink_here : (zs : List Item) → Apart u zs → NotIn x.at zs → From h i u zs → From g i u (x ∷ zs)
  relink_here [] a n (last e stop) =
      step (k.at_u.1) (k.at_u.2) (k.labels x.at ∙ named)
        (last (k.at_new.1) (k.at_new.2 ∙ ground arith))
  relink_here (z ∷ zs) a n (step e next b f) = step (k.at_u.1) (k.at_u.2) (k.labels x.at ∙ named) (
      step (k.at_new.1) (k.at_new.2 ∙ ground arith) (k.labels z.at ∙ b)
        (frame-write k.nodes k.labels a.0.1 n.1 (λ p. a.0.0 (sym p)) (λ p. n.0 (sym p)) f))

  -- The node is linked behind u, the last of the nodes in front.
  pub relink :
      (u0 : ℕ) (ys zs : List Item)
      → u ≡ last_at u0 ys
      → Apart u0 (ys ++ zs)
      → u0 ≢ x.at
      → NotIn x.at (ys ++ zs)
      → From h i u0 (ys ++ zs)
      → From g i u0 (ys ++ (x ∷ zs))
  unfolding last_at
  relink u0 [] zs e a ne n f = rw (← e) (relink_here zs (rw (← e) at a) n (rw (← e) at f))
  relink u0 (y ∷ ys) zs e a ne n (step {l = m} there next b f) =
      let other : u ≢ u0 = rw e (last_at-ne u0 y ys (a.0.0, (NotIn-append u0 ys zs a.0.1).0)) in
      step (k.nodes u0 other (λ p. ne (sym p)) ∙ there) next (k.labels y.at ∙ b)
        (relink y.at ys zs e a.1 n.0 n.1 f)
