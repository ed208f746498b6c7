-- ===== src/ListCommands/Save/Soundness.antt =====
-- What a list command saves keeps the data sound.
use unit_redis_ness.Prelude.{String, List, [], ◌∷◌}
use unit_redis_ness.DatabaseValue.{DatabaseValue, list}
use unit_redis_ness.Soundness.{Sound, Any, put-IsSound, remove-IsSound}
use unit_redis_ness.ListCommands.Save.{save_list, save}

pub save-Sound : (key : String) (v : DatabaseValue) (xs : List String) → Sound Any (save key v xs)
unfolding save_list
save-Sound key v [] = record { run = λ s h. (remove-IsSound s.db h key, tt) }
save-Sound key v (x ∷ xs) = record {
  run = λ s h. (put-IsSound s.db h key (record v { value = list (x ∷ xs) }) tt, tt);
}
