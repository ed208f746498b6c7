-- ===== src/StringCommands/Options/Soundness.antt =====
-- SET keeps the data sound.
use unit_redis_ness.Prelude.{drop, Bool-cases, inl, inr}
use unit_redis_ness.Outcome.{Outcome, returns, throws}
use unit_redis_ness.DatabaseValue.{DatabaseValue, string}
use unit_redis_ness.Number.{Js}
use unit_redis_ness.Token.{error}
use unit_redis_ness.Command.{Request, Store, get_param}
use unit_redis_ness.Soundness.{
  IsSoundPayload, IsSound, Sound, Any, Sound-pure, put-IsSound, put_if_present-IsSound,
  put_if_absent-IsSound,
}
use unit_redis_ness.StringCommands.Options
use unit_redis_ness.StringCommands.Options.{
  Parameters, no_parameters, parse_options, deadline, save_value, set_with, set_parsed,
}

save_value-IsSound :
    (r : Request) (p : Parameters) (v : DatabaseValue) (s : Store)
    → IsSoundPayload v.value
    → IsSound s.db
    → IsSound (save_value r p v s).1
unfolding save_value
save_value-IsSound r p v s new h = elim (Bool-cases p.if_exists) [
  | inl present ↦ rw present (put_if_present-IsSound s.db h r.now (get_param r 0) v new)
  | inr either ↦ rw either (elim (Bool-cases p.if_not_exists) [
    | inl fresh ↦ rw fresh (put_if_absent-IsSound s.db h r.now (get_param r 0) v new)
    | inr always ↦ rw always (put-IsSound s.db h (get_param r 0) v new)
  ])
]

set_parsed-Sound : (r : Request) (o : Outcome Parameters) → Sound Any (set_parsed r o)
unfolding set_parsed set_with
set_parsed-Sound r (throws m) = Sound-pure (error m) tt
set_parsed-Sound r (returns p) = record {
  run = λ s h. (
    save_value-IsSound r p
        (record { value = string (get_param r 1); expired_at = deadline r.now p.ttl }) s tt h,
    tt,
  );
}

pub set-Sound : (js : Js) (r : Request) → Sound Any (Options.set js r)
unfolding Options.set
set-Sound js r = set_parsed-Sound r (parse_options js (drop 2 r.params) no_parameters)
