-- ===== src/Config/Parse.antt =====
-- config.go: `ParseConfig`. `unmarshal` is the YAML library's `Unmarshal` into a new `Config`.
use lazyjack.Base.{Bytes, ◌++◌, str, Result, M, ◌>>=◌, lift, wrap}
use lazyjack.World.{Os}
use lazyjack.Config.{Config}

module _ (o : Os) (unmarshal : Bytes → Result Config) where
  -- The reader is the open file of the given path.
  unfoldable pub parse_config : Bytes → M (o.World) Config
  parse_config file = do
    contents ← wrap (o.read_open file) (λ e. str "Failed to read config: " ++ e)
    wrap (lift (unmarshal contents)) (λ e. str "Failed to parse config: " ++ e)
