-- ===== src/Validate/Load.antt =====
-- validate.go: opening and loading the configuration file.
use lazyjack.Base.{Bytes, ◌++◌, str, quote, Result, Done, M, pure, recover, follow, wrap}
use lazyjack.World.{Os}
use lazyjack.Config.{Config}
use lazyjack.Config.Parse.{parse_config}

module _ (o : Os) where
  unfoldable pub open_config_file : Bytes → M (o.World) Done
  open_config_file config_file =
      wrap (o.open_source config_file)
        (λ e. str "unable to open config file " ++ quote config_file ++ str ": " ++ e)

  -- `defer cf.Close()`: the file is closed behind the result, and an error of it is dropped.
  unfoldable pub close_behind : Bytes → Result Config × o.World → Result Config × o.World
  close_behind file (r, w) = follow (λ _ v. (r, v)) (recover (o.close_file file) (λ _. pure tt) w)

  unfoldable pub load_config : (Bytes → Result Config) → Bytes → M (o.World) Config
  unfolding close_behind
  load_config unmarshal file w = close_behind file (parse_config o unmarshal file w)
