-- ===== src/ListCommands/Pop/Reading.antt =====
-- LLEN: commands that read.
use unit_redis_ness.Prelude.{Option, none, some, length}
use unit_redis_ness.DatabaseValue.{DatabaseValue, get_list}
use unit_redis_ness.Token.{count}
use unit_redis_ness.Command.{Request, get_param}
use unit_redis_ness.Command.Reads.{Reads, Reads-get, Reads-bind, Reads-pure, Reads-lift}
use unit_redis_ness.ListCommands.Pop.{llen, llen_of}

llen_of-Reads : {r : Request} → (o : Option DatabaseValue) → Reads r (llen_of o)
unfolding llen_of
llen_of-Reads none = Reads-pure (count 0)
llen_of-Reads (some v) = Reads-bind (Reads-lift (get_list v)) (λ xs. Reads-pure (count (length xs)))

pub llen-Reads : (r : Request) → Reads r (llen r)
unfolding llen
llen-Reads r = Reads-bind (Reads-get r (get_param r 0)) (λ found. llen_of-Reads found)
