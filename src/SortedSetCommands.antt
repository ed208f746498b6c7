-- ===== src/SortedSetCommands.antt =====
-- src/resp/command/sset: zcard- and zscore-command.ts.
pub mod Reading
pub mod Soundness
use unit_redis_ness.Prelude.{String, Option, none, some}
use unit_redis_ness.Number.{Number, Js}
use unit_redis_ness.DatabaseValue.{DatabaseValue, zset, of_payload, get_sorted_set}
use unit_redis_ness.SortedSet
use unit_redis_ness.Token.{Token, text, count, null_string}
use unit_redis_ness.Command.{Request, get_param, Command, ◌>>=◌, pure, lift, get}

-- `db.getOrDefault(zkey, new DatabaseValue(DataType.ZSET, new SortedSet()))`
abbrev pub or_new_sorted_set : Option DatabaseValue → DatabaseValue
or_new_sorted_set none = of_payload (zset SortedSet.empty)
or_new_sorted_set (some v) = v

unfoldable pub zcard : Request → Command Token
zcard r = do
  found ← get r (get_param r 0)
  s ← lift (get_sorted_set (or_new_sorted_set found))
  pure (count (SortedSet.card s))

module _ (js : Js) where
  abbrev pub score_text : Option Number → Token
  score_text none = null_string
  score_text (some n) = text (js.print n)

  zscore_of : Request → Option DatabaseValue → Command Token
  zscore_of r none = pure null_string
  zscore_of r (some v) = do
    s ← lift (get_sorted_set v)
    pure (score_text (SortedSet.get s (get_param r 1)))

  unfoldable pub zscore : Request → Command Token
  unfolding zscore_of
  zscore r = do found ← get r (get_param r 0); zscore_of r found
