-- ===== src/ListCommands/Index/Reading.antt =====
-- LINDEX: commands that read.
use unit_redis_ness.Prelude.{not, ◌||◌, Option, none, some}
use unit_redis_ness.DatabaseValue.{DatabaseValue, get_list}
use unit_redis_ness.Number.{Js, is_nan, same}
use unit_redis_ness.Token.{text, null_string}
use unit_redis_ness.Command.{Request, get_param}
use unit_redis_ness.Command.Reads.{Reads, Reads-get, Reads-bind, Reads-pure, Reads-lift, Reads-if}
use unit_redis_ness.ListCommands.Index.{joined, lindex, lindex_of, lindex_slice, not_an_integer}

module _ (js : Js) where
  lindex_of-Reads : (r : Request) (o : Option DatabaseValue) → Reads r (lindex_of js r o)
  unfolding lindex_of
  lindex_of-Reads r none = Reads-pure null_string
  lindex_of-Reads r (some v) =
      Reads-if
        (is_nan (js.number (get_param r 1))
          || not (same (js.number (get_param r 1)) (js.parse_int (get_param r 1))))
        (Reads-pure not_an_integer)
        (Reads-bind (Reads-lift (get_list v))
          (λ xs. Reads-pure (text (joined (lindex_slice (js.number (get_param r 1)) xs)))))

  pub lindex-Reads : (r : Request) → Reads r (lindex js r)
  unfolding lindex
  lindex-Reads r = Reads-bind (Reads-get r (get_param r 0)) (λ found. lindex_of-Reads r found)
