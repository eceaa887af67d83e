-- ===== src/Validate/Command.antt =====
-- `ValidateCommand` and `ValidateHost`.
use lazyjack.Base.{
  Bytes, List, [], ◌∷◌, ◌++◌, none, some, if◌then◌else◌, str, equal_fold, quote, Result, ok, err,
  Done,
}
use lazyjack.Config.{Config, find}

abbrev pub valid_commands : List Bytes
valid_commands =
    str "init" ∷ str "prepare" ∷ str "up" ∷ str "down" ∷ str "clean" ∷ str "version" ∷ []

match_command : List Bytes → Bytes → Result Bytes
match_command [] command = err (str "unknown command " ++ quote command)
match_command (c ∷ cs) command = if equal_fold c command then ok c else match_command cs command

unfoldable pub validate_command : Bytes → Result Bytes
unfolding match_command
validate_command [] = err (str "missing command")
validate_command (b ∷ command) = match_command valid_commands (b ∷ command)

unfoldable pub validate_host : Bytes → Config → Result Done
validate_host host config = elim (find host config.topology) [
  | none ↦ err (str "unable to find info for host " ++ quote host ++ str " in config file")
  | some _ ↦ ok tt
]
