-- ===== src/Command/Reads.antt =====
-- Commands that read: a client sees the same values after them as before, at the request's time.
use unit_redis_ness.Prelude.{
  Bool, true, false, Option, none, some, String, refl, ◌∙◌, if◌then◌else◌,
}
use unit_redis_ness.Outcome.{Outcome, returns, throws}
use unit_redis_ness.Database.Laws.{SameView, view-get}
use unit_redis_ness.Command.{Request, Store, Command, pure, lift, continue, ◌>>=◌, get}

pub record Reads {A : Type 0} (r : Request) (m : Command A) : Type 0 where
  pub run : (s : Store) → SameView r.now s.db (m s).1.db

module _ {r : Request} where
  module _ {A B : Type 0} where
    Reads-continue :
        (o : Outcome A) (f : A → Command B) → ((a : A) → Reads r (f a)) → Reads r (continue o f)
    Reads-continue (returns a) f after = after a
    Reads-continue (throws m) f after = record { run = λ s j. refl }

    pub Reads-bind :
        {m : Command A} {f : A → Command B}
        → Reads r m
        → ((a : A) → Reads r (f a))
        → Reads r (m >>= f)
    Reads-bind {m = m} {f = f} before after = record {
      run = λ s j. (Reads-continue (m s).0 f after).run (m s).1 j ∙ before.run s j;
    }

  module _ {A : Type 0} where
    pub Reads-pure : (a : A) → Reads r (pure a)
    Reads-pure a = record { run = λ s j. refl }

    pub Reads-lift : (o : Outcome A) → Reads r (lift o)
    Reads-lift o = record { run = λ s j. refl }

    pub Reads-if :
        {m n : Command A} (b : Bool) → Reads r m → Reads r n → Reads r (if b then m else n)
    Reads-if true here there = here
    Reads-if false here there = there

  module _ {A C : Type 0} where
    pub Reads-option :
        {m : Command A} {f : C → Command A} (o : Option C)
        → Reads r m
        → ((c : C) → Reads r (f c))
        → Reads r (elim o as (λ _. Command A) [ none ↦ m | some c ↦ f c ])
    Reads-option none absent there = absent
    Reads-option (some c) absent there = there c

pub Reads-get : (r : Request) (key : String) → Reads r (get r key)
Reads-get r key = record { run = λ s j. view-get r.now s.db key j }
