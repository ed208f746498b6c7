-- ===== src/ListCommands/Index/Soundness.antt =====
-- LINDEX and LSET keep the data sound.
use unit_redis_ness.Prelude.{not, ◌||◌, Option, none, some, length}
use unit_redis_ness.DatabaseValue.{DatabaseValue, list, get_list}
use unit_redis_ness.Number.{Js, is_nan, same, abs_below}
use unit_redis_ness.Token.{error, text, null_string, response_ok}
use unit_redis_ness.Command.{Request, get_param}
use unit_redis_ness.Soundness.{
  Sound, Any, any, Sound-bind, Sound-pure, Sound-lift, Sound-if, Sound-get, Sound-put,
}
use unit_redis_ness.ListCommands.Index.{
  not_an_integer, lindex_slice, joined, lindex_of, lindex, truncated, lset_of, lset, splice_one,
}

module _ (js : Js) where
  lindex_of-Sound : (r : Request) (o : Option DatabaseValue) → Sound Any (lindex_of js r o)
  unfolding lindex_of
  lindex_of-Sound r none = Sound-pure null_string tt
  lindex_of-Sound r (some v) =
      Sound-if
        (is_nan (js.number (get_param r 1))
          || not (same (js.number (get_param r 1)) (js.parse_int (get_param r 1))))
        (Sound-pure not_an_integer tt)
        (Sound-bind (Sound-lift (get_list v) (any (get_list v)))
          (λ xs _. Sound-pure (text (joined (lindex_slice (js.number (get_param r 1)) xs))) tt))

  pub lindex-Sound : (r : Request) → Sound Any (lindex js r)
  unfolding lindex
  lindex-Sound r = Sound-bind (Sound-get r (get_param r 0)) (λ found _. lindex_of-Sound r found)

  lset_of-Sound : (r : Request) (o : Option DatabaseValue) → Sound Any (lset_of js r o)
  unfolding lset_of
  lset_of-Sound r none = Sound-pure (error "ERR no such key") tt
  lset_of-Sound r (some v) =
      Sound-if (is_nan (js.number (get_param r 1))) (Sound-pure not_an_integer tt) (
        Sound-bind (Sound-lift (get_list v) (any (get_list v))) (λ xs _.
          Sound-if (abs_below (js.number (get_param r 1)) (length xs))
            (Sound-bind
              (Sound-put (get_param r 0)
                (record v {
                  value =
                      list (splice_one (truncated (js.number (get_param r 1))) (get_param r 2) xs);
                })
                tt)
              (λ _ _. Sound-pure response_ok tt))
            (Sound-pure not_an_integer tt)))

  pub lset-Sound : (r : Request) → Sound Any (lset js r)
  unfolding lset
  lset-Sound r = Sound-bind (Sound-get r (get_param r 0)) (λ found _. lset_of-Sound r found)
