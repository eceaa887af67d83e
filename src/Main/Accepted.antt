-- ===== src/Main/Accepted.antt =====
-- An action is performed on a valid configuration only.
use lazyjack.Base.{Bytes, none, some, ◌≡◌, ◌≢◌, str, eq_str, Result, ok}
use lazyjack.Base.Yields.{Yields}
use lazyjack.Net.{Net}
use lazyjack.World.{Os}
use lazyjack.Config.{Config, find}
use lazyjack.Validate.Command.{validate_command}
use lazyjack.Validate.Load.{open_config_file, load_config}
use lazyjack.Validate.Contents.{validate_config_contents}
use lazyjack.Validate.Contents.Valid.{IsValid}
use lazyjack.Main.{act}

-- What a run did from its start to its end: the command was accepted; the file was opened, loaded
-- and validated, each with success and from the state that the step before left; the configuration
-- that this gave is valid and lists the host; and the command's action was performed on it, from
-- the state that the validation left.
pub record Acted (o : Os) (net : Net) (unmarshal : Bytes → Result Config) (arg host file : Bytes)
    (start end : o.World) : Type 0 where
  pub command : Bytes
  pub loaded : Config
  pub config : Config
  pub opened_state : o.World
  pub loaded_state : o.World
  pub before : o.World
  pub accepted : validate_command arg ≡ ok command
  pub no_version : command ≢ str "version"
  pub opening : open_config_file o file start ≡ (ok tt, opened_state)
  pub loading : load_config o unmarshal file opened_state ≡ (ok loaded, loaded_state)
  pub validation :
      validate_config_contents o net (some loaded) (eq_str command (str "init")) loaded_state
      ≡ (ok config, before)
  pub valid : IsValid (eq_str command (str "init")) config
  pub listed : find host config.topology ≢ none
  pub performed : act o net command host file config before ≡ (ok tt, end)
