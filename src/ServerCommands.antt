-- ===== src/ServerCommands.antt =====
-- src/resp/command/server: ping-, echo- and quit-command.ts, and src/resp/command/null-command.ts.
use Prim.Native.String
use unit_redis_ness.Prelude.{String, List, [], ◌∷◌}
use unit_redis_ness.Outcome.{Outcome, returns}
use unit_redis_ness.Token.{Token, text, error, response_ok}
use unit_redis_ness.Command.{Request, get_param, Command, pure}
use unit_redis_ness.Session.{Call, set_error}
use unit_redis_ness.World.{World}

unfoldable pub ping : Request → Command Token
ping r = pure (text "PONG")

unfoldable pub echo : Request → Command Token
echo r = pure (text (get_param r 0))

unfoldable pub quit : Request → Command Token
quit r = pure response_ok

-- Each parameter between backquotes, with a comma and a blank after it.
unfoldable pub quoted : List String → String
quoted [] = ""
quoted (p ∷ ps) = String.◌++◌ (String.◌++◌ "`" (String.◌++◌ p "`, ")) (quoted ps)

unfoldable pub unknown_command : Call → String
unfolding quoted
unknown_command call =
    String.◌++◌
      (String.◌++◌ "ERR unknown command `"
        (String.◌++◌ call.command "`, with args beginning with: "))
      (quoted call.params)

module _ {C : Type 0} where
  unfoldable pub null : Call → World C → Outcome Token × World C
  unfolding set_error unknown_command
  null call w = (returns (error (unknown_command call)), record w { session = set_error w.session })
