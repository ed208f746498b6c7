-- ===== src/ListCommands/Range/Reading.antt =====
-- LRANGE: commands that read.
use unit_redis_ness.DatabaseValue.{get_list}
use unit_redis_ness.Number.{Js}
use unit_redis_ness.Token.{array, texts}
use unit_redis_ness.Command.{Request, get_param}
use unit_redis_ness.Command.Reads.{
  Reads, Reads-get, Reads-bind, Reads-pure, Reads-lift, Reads-option,
}
use unit_redis_ness.ListCommands.Range.{bounds_of, lrange, not_an_integer, or_new_list, range_of}

module _ (js : Js) where
  pub lrange-Reads : (r : Request) → Reads r (lrange js r)
  unfolding lrange
  lrange-Reads r = Reads-bind (Reads-get r (get_param r 0)) (λ found.
      Reads-bind (Reads-lift (get_list (or_new_list found))) (λ xs.
        Reads-option (bounds_of js r) (Reads-pure not_an_integer)
          (λ bounds. Reads-pure (array (texts (range_of bounds xs))))))
