-- ===== src/SetCommands/Reading.antt =====
-- SCARD, SISMEMBER, SMEMBERS: commands that read.
use unit_redis_ness.Prelude.{length, if◌then◌else◌}
use unit_redis_ness.DatabaseValue.{get_set}
use unit_redis_ness.Token.{array, texts, count}
use unit_redis_ness.Command.{Request, get_param}
use unit_redis_ness.Command.Reads.{Reads, Reads-get, Reads-bind, Reads-pure, Reads-lift}
use unit_redis_ness.SetCommands.{has, or_new_set, scard, sismember, smembers}

pub scard-Reads : (r : Request) → Reads r (scard r)
unfolding scard
scard-Reads r = Reads-bind (Reads-get r (get_param r 0)) (λ found.
    Reads-bind (Reads-lift (get_set (or_new_set found))) (λ xs. Reads-pure (count (length xs))))

pub sismember-Reads : (r : Request) → Reads r (sismember r)
unfolding sismember
sismember-Reads r = Reads-bind (Reads-get r (get_param r 0)) (λ found.
    Reads-bind (Reads-lift (get_set (or_new_set found)))
      (λ xs. Reads-pure (if has (get_param r 1) xs then count 1 else count 0)))

pub smembers-Reads : (r : Request) → Reads r (smembers r)
unfolding smembers
smembers-Reads r = Reads-bind (Reads-get r (get_param r 0)) (λ found.
    Reads-bind (Reads-lift (get_set (or_new_set found))) (λ xs. Reads-pure (array (texts xs))))
