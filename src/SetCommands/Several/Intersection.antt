-- ===== src/SetCommands/Several/Intersection.antt =====
-- What SINTER and SINTERSTORE do at a set.
use unit_redis_ness.Prelude.{String, ◌≡◌, refl, ap, Option, none, some, List, ◌∷◌, ℤ}
use unit_redis_ness.Outcome.{Outcome, returns, throws}
use unit_redis_ness.DatabaseValue.{set, wrong_type, get_string}
use unit_redis_ness.Database.Laws.{view, SameView, get_hit}
use unit_redis_ness.Token.{Token, error}
use unit_redis_ness.SetCommands.Several.Reading.{sinter-Reads}
use unit_redis_ness.Command.{pure, continue, Request, Store, Command}
use unit_redis_ness.SetCommands.Several.{
  other_sets, intersect, intersection, intersection_of, array_of, sinter, Members, refused,
}

-- The command threw, or replied that a value has the wrong type.
abbrev pub Fails : Outcome Token → Type 0
Fails (throws m) = Unit
Fails (returns t) = t ≡ error wrong_type

abbrev IsRefused : Outcome Members → Type 0
IsRefused (throws m) = Unit
IsRefused (returns o) = o ≡ refused

-- The log call of `dbKey.getString()` throws for a set.
intersect-IsRefused :
    (xs : List String) (t : Option ℤ) (ys : List String) (o : Option (List (List String)))
    (s : Store)
    → IsRefused (intersect (record { value = set xs; expired_at = t }) ys o s).0
unfolding intersect get_string
intersect-IsRefused xs t ys none s = refl
intersect-IsRefused xs t ys (some others) s = tt

continue-IsRefused :
    {A : Type 0} (o : Outcome A) (f : A → Command Members) (s : Store)
    → ((a : A) → IsRefused (f a s).0)
    → IsRefused (continue o f s).0
continue-IsRefused (returns a) f s h = h a
continue-IsRefused (throws m) f s h = tt

module _ (r : Request) (s : Store) (key : String) (keys : List String) {xs : List String}
    {t : Option ℤ}
    (held : view r.now s.db key ≡ some (record { value = set xs; expired_at = t })) where
  intersection-IsRefused :
      (params : List String) → params ≡ key ∷ keys → IsRefused (intersection r params s).0
  unfolding intersection intersection_of
  intersection-IsRefused params e =
      rw (e, get_hit r.now s.db key _ held)
        (continue-IsRefused (other_sets r keys s).0 _ (other_sets r keys s).1
          (λ o. intersect-IsRefused xs t xs o (other_sets r keys s).1))

abbrev array_of-Fails :
    (o : Outcome Members) (s : Store)
    → IsRefused o
    → Fails (continue o (λ m. pure (array_of m)) s).0
array_of-Fails (returns m) s h = ap array_of h
array_of-Fails (throws m) s h = tt

-- SINTER whose first key holds a set never replies with members: it throws, or replies that a
-- value has the wrong type. It changes nothing.
pub sinter_fails :
    (r : Request) (s : Store) (key : String) (keys : List String) {xs : List String} {t : Option ℤ}
    → r.params ≡ key ∷ keys
    → view r.now s.db key ≡ some (record { value = set xs; expired_at = t })
    → Fails (sinter r s).0 × SameView r.now s.db (sinter r s).1.db
unfolding sinter
sinter_fails r s key keys e held = (
  array_of-Fails (intersection r r.params s).0 (intersection r r.params s).1
      (intersection-IsRefused r s key keys held r.params e),
  (sinter-Reads r).run s,
)
