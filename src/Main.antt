-- ===== src/Main.antt =====
-- cmd/lazyjack.go: from the command line to the action. Reading the flags is not modelled.
pub mod Accepted
use lazyjack.Base.{
  Bytes, some, if◌then◌else◌, str, eq_str, Result, Done, M, ◌>>=◌, ◌>>◌, pure, fail, lift, recover,
}
use lazyjack.Net.{Net}
use lazyjack.World.{Os}
use lazyjack.Config.{Config}
use lazyjack.Validate.Command.{validate_command, validate_host}
use lazyjack.Validate.Load.{open_config_file, load_config}
use lazyjack.Validate.Contents.{validate_config_contents}
use lazyjack.Prepare.{prepare}
use lazyjack.Init.{initialize}
use lazyjack.Up.{bring_up}
use lazyjack.Down.{tear_down}
use lazyjack.Cleanup.{cleanup}

module _ (o : Os) (net : Net) where
  -- The switch; an error is an exit with a status other than 0.
  pub act : Bytes → Bytes → Bytes → Config → M (o.World) Done
  act command host config_file c =
      if eq_str command (str "init")
      then initialize o host c config_file
      else if eq_str command (str "prepare")
      then prepare o net host c
      else if eq_str command (str "up")
      then bring_up o net host c
      else if eq_str command (str "down")
      then tear_down o net host c
      else if eq_str command (str "clean")
      then recover (cleanup o net host c) (λ _. pure tt)
      else fail (str "Unknown command")

  load_and_act : (Bytes → Result Config) → Bytes → Bytes → Bytes → M (o.World) Done
  unfolding act
  load_and_act unmarshal command host config_file = do
    open_config_file o config_file
    loaded ← load_config o unmarshal config_file
    c ← validate_config_contents o net (some loaded) (eq_str command (str "init"))
    lift (validate_host host c)
    act command host config_file c

  unfoldable pub main : (Bytes → Result Config) → Bytes → Bytes → Bytes → M (o.World) Done
  unfolding load_and_act
  main unmarshal arg host config_file = do
    command ← lift (validate_command arg)
    if eq_str command (str "version")
        then pure tt
        else load_and_act unmarshal command host config_file
