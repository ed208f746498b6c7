-- ===== src/KeyCommands/Lifetime/Reading.antt =====
-- TTL: commands that read.
use unit_redis_ness.Number.{integer}
use unit_redis_ness.Token.{number}
use unit_redis_ness.Command.{Request, get_param}
use unit_redis_ness.Command.Reads.{Reads, Reads-get, Reads-bind, Reads-pure}
use unit_redis_ness.KeyCommands.Lifetime.{ttl, ttl_of}

pub ttl-Reads : (r : Request) → Reads r (ttl r)
unfolding ttl
ttl-Reads r =
    Reads-bind (Reads-get r (get_param r 0))
      (λ found. Reads-pure (number (integer (ttl_of r.now found))))
