-- ===== src/SetCommands/Several/Reading.antt =====
-- SDIFF, SUNION, SINTER: commands that read.
use unit_redis_ness.Prelude.{String, Option, none, some, List, [], ◌∷◌, drop}
use unit_redis_ness.Outcome.{throws}
use unit_redis_ness.DatabaseValue.{DatabaseValue, get_string, get_set}
use unit_redis_ness.Token.{array, texts}
use unit_redis_ness.Command.{Request, get_param}
use unit_redis_ness.Command.Reads.{
  Reads, Reads-get, Reads-bind, Reads-pure, Reads-lift, Reads-if, Reads-option,
}
use unit_redis_ness.Database.Laws.{view-get}
use unit_redis_ness.Database
use unit_redis_ness.SetCommands.Several.{
  add_each, and_also, array_of, as_set, candidates, exists_at, gather, gather_all, intersect,
  intersection, intersection_of, members, minus, or_new_set, other_sets, refused, sdiff, sdiff_of,
  sinter, sunion, undefined_get_string, union, unite,
}

exists_at-Reads : (r : Request) (key : String) → Reads r (exists_at r key)
unfolding Database.exists
exists_at-Reads r key = record { run = λ s j. view-get r.now s.db key j }

gather_all-Reads : (r : Request) (keys all : List String) → Reads r (gather_all r keys all)
unfolding gather_all
gather_all-Reads r [] all = Reads-pure all
gather_all-Reads r (key ∷ keys) all =
    Reads-bind (Reads-get r key) (λ found. gather_all-Reads r keys (gather (as_set found) all))

sdiff_of-Reads : (r : Request) (o : Option DatabaseValue) → Reads r (sdiff_of r o)
unfolding sdiff_of
sdiff_of-Reads r found = Reads-bind (gather_all-Reads r (drop 1 r.params) []) (λ out.
    Reads-bind (Reads-lift (get_set (or_new_set found)))
      (λ xs. Reads-pure (array (texts (minus xs out)))))

pub sdiff-Reads : (r : Request) → Reads r (sdiff r)
unfolding sdiff
sdiff-Reads r = Reads-bind (exists_at-Reads r (get_param r 0)) (λ there.
    Reads-if there (Reads-bind (Reads-get r (get_param r 0)) (λ found. sdiff_of-Reads r found))
      (Reads-pure (array (texts []))))

unite-Reads : (r : Request) (keys all : List String) → Reads r (unite r keys all)
unfolding unite
unite-Reads r [] all = Reads-pure (members all)
unite-Reads r (key ∷ keys) all = Reads-bind (Reads-get r key) (λ found.
    Reads-option (as_set found) (Reads-pure refused) (λ m. unite-Reads r keys (add_each m all)))

union-Reads : (r : Request) (keys : List String) → Reads r (union r keys)
unfolding union
union-Reads r [] = Reads-pure (members [])
union-Reads r (key ∷ keys) =
    Reads-bind (exists_at-Reads r key)
      (λ there. Reads-if there (unite-Reads r (key ∷ keys) []) (Reads-pure (members [])))

pub sunion-Reads : (r : Request) → Reads r (sunion r)
unfolding sunion
sunion-Reads r = Reads-bind (union-Reads r r.params) (λ result. Reads-pure (array_of result))

other_sets-Reads : (r : Request) (keys : List String) → Reads r (other_sets r keys)
unfolding other_sets
other_sets-Reads r [] = Reads-pure (some [])
other_sets-Reads r (key ∷ keys) = Reads-bind (Reads-get r key) (λ found.
    Reads-option found (Reads-lift (throws undefined_get_string)) (λ v.
      Reads-option (as_set (some v))
        (Reads-bind (Reads-lift (get_string v)) (λ text. Reads-pure none))
        (λ m. Reads-bind (other_sets-Reads r keys) (λ rest. Reads-pure (and_also m rest)))))

intersect-Reads :
    {r : Request}
    → (v : DatabaseValue) (xs : List String) (o : Option (List (List String)))
    → Reads r (intersect v xs o)
unfolding intersect
intersect-Reads v xs none = Reads-pure refused
intersect-Reads v xs (some others) =
    Reads-bind (Reads-lift (get_string v)) (λ text. Reads-pure (members (candidates xs others)))

intersection_of-Reads :
    (r : Request) (keys : List String) (o : Option DatabaseValue)
    → Reads r (intersection_of r keys o)
unfolding intersection_of
intersection_of-Reads r keys none = Reads-pure (members [])
intersection_of-Reads r keys (some v) =
    Reads-option (as_set (some v)) (Reads-pure refused)
      (λ xs. Reads-bind (other_sets-Reads r keys) (λ others. intersect-Reads v xs others))

intersection-Reads : (r : Request) (keys : List String) → Reads r (intersection r keys)
unfolding intersection
intersection-Reads r [] = Reads-pure (members [])
intersection-Reads r (key ∷ keys) =
    Reads-bind (Reads-get r key) (λ found. intersection_of-Reads r keys found)

pub sinter-Reads : (r : Request) → Reads r (sinter r)
unfolding sinter
sinter-Reads r = Reads-bind (intersection-Reads r r.params) (λ result. Reads-pure (array_of result))
