-- ===== src/KeyCommands/Names/Reading.antt =====
-- EXISTS, TYPE: commands that read.
use unit_redis_ness.Prelude.{suc, String, List, [], ◌∷◌, if◌then◌else◌}
use unit_redis_ness.Token.{text, count}
use unit_redis_ness.Command.{Request, get_param}
use unit_redis_ness.Command.Reads.{Reads, Reads-get, Reads-bind, Reads-pure}
use unit_redis_ness.Database.Laws.{view-get}
use unit_redis_ness.Database
use unit_redis_ness.KeyCommands.Names
use unit_redis_ness.KeyCommands.Names.{exists, exists_all, exists_at, type_name, type_of}

exists_at-Reads : (r : Request) (key : String) → Reads r (exists_at r key)
unfolding Database.exists
exists_at-Reads r key = record { run = λ s j. view-get r.now s.db key j }

exists_all-Reads : (r : Request) (keys : List String) → Reads r (exists_all r keys)
unfolding exists_all
exists_all-Reads r [] = Reads-pure 0
exists_all-Reads r (key ∷ keys) = Reads-bind (exists_at-Reads r key) (λ present.
    Reads-bind (exists_all-Reads r keys) (λ rest. Reads-pure (if present then suc rest else rest)))

pub exists-Reads : (r : Request) → Reads r (exists r)
unfolding exists
exists-Reads r = Reads-bind (exists_all-Reads r r.params) (λ n. Reads-pure (count n))

pub type-Reads : (r : Request) → Reads r (Names.type r)
unfolding Names.type
type-Reads r =
    Reads-bind (Reads-get r (get_param r 0))
      (λ found. Reads-pure (text (type_name (type_of found))))
