-- ===== src/Files.antt =====
-- file.go and os_exec.go: reading and saving files with a backup, and running commands.
pub mod Laws
pub mod Edited
use lazyjack.Base.{
  Bytes, List, [], ◌∷◌, ◌++◌, Bool, true, false, not, if◌then◌else◌, str, quote, Result, ok, err,
  Done, M, ◌>>=◌, ◌>>◌, fail, recover, wrap, when,
}
use lazyjack.Base.Split.{join}
use lazyjack.World.{Os, Ran, succeeded, failed}

module _ (o : Os) where
  unfoldable pub get_file_contents : Bytes → M (o.World) Bytes
  get_file_contents file =
      wrap (o.read_file file) (λ e. str "unable to read " ++ file ++ str ": " ++ e)

  unfoldable pub recover_file : Bytes → Bytes → Bytes → M (o.World) Done
  recover_file file backup save_err = do
    wrap (o.rename backup file) (λ e.
        str "unable to save updated "
        ++ file
        ++ str " ("
        ++ save_err
        ++ str ") AND unable to restore backup file "
        ++ backup
        ++ str " ("
        ++ e
        ++ str ")")
    fail (
        str "unable to save updated "
        ++ file
        ++ str " ("
        ++ save_err
        ++ str "), but restored from backup")

  unfoldable pub save_file_contents : Bytes → Bytes → Bytes → M (o.World) Done
  unfolding recover_file
  save_file_contents contents file backup w =
      let exists = not (o.is_missing file w) in
      (when exists (
            wrap (o.rename file backup) (λ e.
              str "unable to backup existing file "
              ++ file
              ++ str " to "
              ++ backup
              ++ str ": "
              ++ e))
          >> recover (o.write_file file contents) (λ e.
            if exists then recover_file file backup e else fail (str "unable to save " ++ file)))
        w

  -- `OsExecCommand`
  pub exec_result : Bytes → List Bytes → Ran × o.World → Result Bytes × o.World
  exec_result cmd args (succeeded out, w) = (ok out, w)
  exec_result cmd args (failed e out, w) = (
    err (
        str "failed running "
        ++ quote cmd
        ++ str " with args "
        ++ quote (join b' ' args)
        ++ str ": "
        ++ e
        ++ str ". Output="
        ++ quote out),
    w,
  )

  unfoldable pub do_exec_command : Bytes → List Bytes → M (o.World) Bytes
  unfolding exec_result
  do_exec_command cmd args w = exec_result cmd args (o.combined_output cmd args w)
