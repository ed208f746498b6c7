-- ===== src/HashCommands/Reading.antt =====
-- HGET, HGETALL: commands that read.
use unit_redis_ness.Prelude.{Option, none, some}
use unit_redis_ness.DatabaseValue.{DatabaseValue, get_hash}
use unit_redis_ness.Token.{end, token, array, null_string}
use unit_redis_ness.Command.{Request, get_param}
use unit_redis_ness.Command.Reads.{Reads, Reads-get, Reads-bind, Reads-pure, Reads-lift}
use unit_redis_ness.Dictionary
use unit_redis_ness.HashCommands.{field_value, fields, hget, hget_of, hgetall, hgetall_of}

hget_of-Reads : (r : Request) (o : Option DatabaseValue) → Reads r (hget_of r o)
unfolding hget_of
hget_of-Reads r none = Reads-pure null_string
hget_of-Reads r (some item) =
    Reads-bind (Reads-lift (get_hash item))
      (λ h. Reads-pure (field_value (Dictionary.get h (get_param r 1))))

pub hget-Reads : (r : Request) → Reads r (hget r)
unfolding hget
hget-Reads r = Reads-bind (Reads-get r (get_param r 0)) (λ found. hget_of-Reads r found)

hgetall_of-Reads : {r : Request} → (o : Option DatabaseValue) → Reads r (hgetall_of o)
unfolding hgetall_of
hgetall_of-Reads none = Reads-pure (array (token null_string end))
hgetall_of-Reads (some item) =
    Reads-bind (Reads-lift (get_hash item)) (λ h. Reads-pure (array (fields h.items)))

pub hgetall-Reads : (r : Request) → Reads r (hgetall r)
unfolding hgetall
hgetall-Reads r = Reads-bind (Reads-get r (get_param r 0)) (λ found. hgetall_of-Reads found)
