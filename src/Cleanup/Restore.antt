-- ===== src/Cleanup/Restore.antt =====
-- "clean" behind "prepare", on the files of /etc.
use lazyjack.Base.{
  Bytes, [], ◌∷◌, ◌++◌, Option, some, ◌≡◌, ◌≢◌, ◌∙◌, ap, All, trim_right, is_newline, str, ok, wrap,
}
use lazyjack.Base.Split.{Lacks}
use lazyjack.Base.Steps.{caught-eq-ok}
use lazyjack.World.{Os}
use lazyjack.World.Path.{join_path}
use lazyjack.Files.{get_file_contents}
use lazyjack.Files.Laws.{FileLaws}
use lazyjack.Files.Edited.{get_file_contents-content, edit_file-content}
use lazyjack.Config.{
  Config, Node, etc_hosts_file, etc_hosts_backup_file, etc_resolv_conf_file,
  etc_resolv_conf_backup_file,
}
use lazyjack.EtcFiles.Edit.{revert_config_info, Clean}
use lazyjack.EtcFiles.Hosts.{update_hosts_info}
use lazyjack.EtcFiles.Hosts.Restore.{IsGood, revert_config_info-update_hosts_info}
use lazyjack.EtcFiles.Resolv.{update_resolv_conf_info}
use lazyjack.EtcFiles.Resolv.Restore.{revert_config_info-update_resolv_conf_info}
use lazyjack.Prepare.Etc.{
  build_node_info, add_host_entries, calc_name_server, add_resolv_conf_entry,
}
use lazyjack.Cleanup.{revert_entries, revert_etc_area_file}

module _ (o : Os) (content : Bytes → o.World → Option Bytes) (L : FileLaws o content) where
  revert_entries-content :
      (file backup c : Bytes) (w w' : o.World)
      → file ≢ backup
      → content file w ≡ some c
      → revert_entries o file backup w ≡ (ok tt, w')
      → content file w' ≡ some (revert_config_info c)
  unfolding revert_entries
  revert_entries-content file backup c w w' ne e h =
      let text = λ (x : Bytes). str "unable to read file " ++ file ++ str " to revert: " ++ x in
      edit_file-content o content L (wrap (get_file_contents o file) text) revert_config_info file
        backup c w w' ne
        (λ d p.
          get_file_contents-content o content L file c d w e
            (caught-eq-ok text (get_file_contents o file w) d p).0)
        h

  -- Preparing /etc/hosts and then cleaning it up, both with success, leaves in the file what was
  -- there before, with exactly one newline at its end. The file must have no tags, the entries of
  -- the nodes must be plain lines, and the file and its backup must be two paths.
  pub revert_etc_area_file-add_host_entries :
      (cfg : Config) (c : Bytes) (w w1 w2 : o.World)
      → join_path cfg.general.etc_area etc_hosts_file
        ≢ join_path cfg.general.etc_area etc_hosts_backup_file
      → content (join_path cfg.general.etc_area etc_hosts_file) w ≡ some c
      → Clean c
      → All IsGood (build_node_info cfg)
      → add_host_entries o cfg w ≡ (ok tt, w1)
      → revert_etc_area_file o cfg etc_hosts_file etc_hosts_backup_file w1 ≡ (ok tt, w2)
      → content (join_path cfg.general.etc_area etc_hosts_file) w2
        ≡ some (trim_right is_newline c ++ 10 ∷ [])
  unfolding add_host_entries revert_etc_area_file
  revert_etc_area_file-add_host_entries cfg c w w1 w2 ne e clean good h h' =
      let file = join_path cfg.general.etc_area etc_hosts_file in
      let backup = join_path cfg.general.etc_area etc_hosts_backup_file in
      let nodes = build_node_info cfg in
      let edited =
        edit_file-content o content L (get_file_contents o file) (λ d. update_hosts_info d nodes)
          file backup c w w1 ne (λ d. get_file_contents-content o content L file c d w e) h in
      revert_entries-content file backup (update_hosts_info c nodes) w1 w2 ne edited h'
      ∙ ap some (revert_config_info-update_hosts_info c nodes clean good)

  -- The same for /etc/resolv.conf. The name server's address must hold no newline.
  pub revert_etc_area_file-add_resolv_conf_entry :
      (node : Node) (cfg : Config) (c : Bytes) (w w1 w2 : o.World)
      → join_path cfg.general.etc_area etc_resolv_conf_file
        ≢ join_path cfg.general.etc_area etc_resolv_conf_backup_file
      → content (join_path cfg.general.etc_area etc_resolv_conf_file) w ≡ some c
      → Clean c
      → Lacks 10 (calc_name_server node cfg)
      → add_resolv_conf_entry o node cfg w ≡ (ok tt, w1)
      → revert_etc_area_file o cfg etc_resolv_conf_file etc_resolv_conf_backup_file w1 ≡ (ok tt, w2)
      → content (join_path cfg.general.etc_area etc_resolv_conf_file) w2
        ≡ some (trim_right is_newline c ++ 10 ∷ [])
  unfolding add_resolv_conf_entry revert_etc_area_file
  revert_etc_area_file-add_resolv_conf_entry node cfg c w w1 w2 ne e clean one_line h h' =
      let file = join_path cfg.general.etc_area etc_resolv_conf_file in
      let backup = join_path cfg.general.etc_area etc_resolv_conf_backup_file in
      let ns = calc_name_server node cfg in
      let edited =
        edit_file-content o content L (get_file_contents o file) (λ d. update_resolv_conf_info d ns)
          file backup c w w1 ne (λ d. get_file_contents-content o content L file c d w e) h in
      revert_entries-content file backup (update_resolv_conf_info c ns) w1 w2 ne edited h'
      ∙ ap some (revert_config_info-update_resolv_conf_info c ns clean one_line)
