-- ===== src/Examples/Ordering.antt =====
-- Orders of texts and of numbers that obey the laws of `<`: texts by their code points, fractions
-- with one floor by their spelling.
use Prim.Native.Char.{code}
use Prim.Native.String as Text
use text.Mathlib.TextEquality.{Char-path}
use unit_redis_ness.Prelude.{
  String, Bool, true, false, ◌&&◌, ◌||◌, ◌≡◌, refl, arith, ltb, eqb, ltb_ℤ, eqb_ℤ, eqb_ℤ_iff,
}
use unit_redis_ness.Number.{Number, nan, infinite, integer, fraction, less, is_nan}
use unit_redis_ness.SortedSet.Heap.{Order}
use unit_redis_ness.SortedSet.Shape.{OrderLaws}

text_less : String → String → Bool
text_less s Text.[] = false
text_less Text.[] (Text.◌∷◌ d t) = true
text_less (Text.◌∷◌ c s) (Text.◌∷◌ d t) =
    ltb (code c) (code d) || (eqb (code c) (code d) && text_less s t)

text_less_irrefl : (s : String) → text_less s s ≡ false
unfolding text_less
text_less_irrefl Text.[] = refl
text_less_irrefl (Text.◌∷◌ c s) = ground (arith, text_less_irrefl s)

text_less_trans :
    (s t u : String) → text_less s t ≡ true → text_less t u ≡ true → text_less s u ≡ true
unfolding text_less
text_less_trans s t Text.[] p q = q
text_less_trans Text.[] t (Text.◌∷◌ e u) p q = refl
text_less_trans (Text.◌∷◌ c s) Text.[] (Text.◌∷◌ e u) p q = cc
text_less_trans (Text.◌∷◌ c s) (Text.◌∷◌ d t) (Text.◌∷◌ e u) p q =
    ground (arith, text_less_trans s t u)

text_less_total : (s t : String) → text_less s t ≡ false → text_less t s ≡ false → s ≡ t
unfolding text_less
text_less_total Text.[] Text.[] p q = refl
text_less_total Text.[] (Text.◌∷◌ d t) p q = cc
text_less_total (Text.◌∷◌ c s) Text.[] p q = cc
text_less_total (Text.◌∷◌ c s) (Text.◌∷◌ d t) p q =
    let e : code c ≡ code d = ground arith in
    let e' : s ≡ t = text_less_total s t (ground arith) (ground arith) in
    λ i. Text.◌∷◌ (Char-path c d e i) (e' i)

number_less : Number → Number → Bool
number_less (fraction f s) (fraction g t) = ltb_ℤ f g || (eqb_ℤ f g && text_less s t)
number_less a b = less a b

number_less_irrefl : (a : Number) → number_less a a ≡ false
unfolding number_less
number_less_irrefl (fraction f s) = ground (arith, text_less_irrefl s)
number_less_irrefl nan = refl
number_less_irrefl (infinite up) = ground arith
number_less_irrefl (integer a) = ground arith

number_less_trans :
    (a b c : Number) → number_less a b ≡ true → number_less b c ≡ true → number_less a c ≡ true
unfolding number_less
number_less_trans (fraction f s) (fraction g t) (fraction h u) p q =
    ground (arith, text_less_trans s t u, eqb_ℤ_iff f g, eqb_ℤ_iff g h)
number_less_trans a b c p q = ground arith

number_less_total :
    (a b : Number)
    → is_nan a ≡ false
    → is_nan b ≡ false
    → number_less a b ≡ false
    → number_less b a ≡ false
    → a ≡ b
unfolding number_less
number_less_total (fraction f s) (fraction g t) x y p q =
    ground (arith, text_less_total s t, eqb_ℤ_iff f g)
number_less_total (integer f) (integer g) x y p q = ground (arith, eqb_ℤ_iff f g)
number_less_total a b x y p q = ground arith

unfoldable pub natural : Order
unfolding text_less number_less
natural = record { less = number_less; key_less = text_less }

pub natural_laws : OrderLaws natural
unfolding natural
natural_laws = record {
  less_irrefl = number_less_irrefl;
  less_trans = number_less_trans;
  less_total = number_less_total;
  key_irrefl = text_less_irrefl;
  key_trans = text_less_trans;
  key_total = text_less_total;
}
