-- ===== src/StringCommands/Basic/Reading.antt =====
-- GET, MGET: commands that read.
use unit_redis_ness.Prelude.{String, List, [], ◌∷◌}
use unit_redis_ness.Token.{end, token, array}
use unit_redis_ness.Command.{Request, get_param}
use unit_redis_ness.Command.Reads.{Reads, Reads-get, Reads-bind, Reads-pure}
use unit_redis_ness.StringCommands.Basic.{get_command, item_or_null, mget, mget_all, text_of}

pub get_command-Reads : (r : Request) → Reads r (get_command r)
unfolding get_command
get_command-Reads r =
    Reads-bind (Reads-get r (get_param r 0)) (λ found. Reads-pure (item_or_null found))

mget_all-Reads : (r : Request) (keys : List String) → Reads r (mget_all r keys)
unfolding mget_all
mget_all-Reads r [] = Reads-pure end
mget_all-Reads r (key ∷ keys) =
    Reads-bind (Reads-get r key) (λ found.
      Reads-bind (mget_all-Reads r keys) (λ rest. Reads-pure (token (text_of found) rest)))

pub mget-Reads : (r : Request) → Reads r (mget r)
unfolding mget
mget-Reads r = Reads-bind (mget_all-Reads r r.params) (λ results. Reads-pure (array results))
