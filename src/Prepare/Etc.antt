-- ===== src/Prepare/Etc.antt =====
-- prepare.go: the nodes' entries for /etc/hosts, and the name server for /etc/resolv.conf.
pub mod Sorted
pub mod Unique
pub mod Listed
use lazyjack.Base.{
  ℕ, Bytes, List, [], ◌∷◌, ◌++◌, Bool, true, false, not, ◌&&◌, if◌then◌else◌, map, show_int, str,
  eq_str, lt_str, Done, M, ◌>>=◌, ◌>>◌, pure,
}
use lazyjack.World.{Os}
use lazyjack.World.Path.{join_path}
use lazyjack.Files.{get_file_contents, save_file_contents}
use lazyjack.Config.{
  Config, Node, etc_hosts_file, etc_hosts_backup_file, etc_resolv_conf_file,
  etc_resolv_conf_backup_file, is_dual_stack, is_ipv6_mode,
}
use lazyjack.EtcFiles.Hosts.{NodeInfo, update_hosts_info}
use lazyjack.EtcFiles.Resolv.{update_resolv_conf_info}

-- The management prefix of the service network's family, in dual-stack mode.
unfoldable pub hosts_prefix : Config → Bytes
hosts_prefix c =
    if is_dual_stack c && not (eq_str c.mgmt.info0.mode c.service.info.mode)
    then c.mgmt.info1.prefix
    else c.mgmt.info0.prefix

abbrev pub node_info : Bytes → Bytes × Node → NodeInfo
node_info prefix (name, node) = record {
  name = name;
  ip = prefix ++ show_int node.id;
  seen = false;
}

-- `sort.Slice` by name.
pub insert_node : NodeInfo → List NodeInfo → List NodeInfo
insert_node a [] = a ∷ []
insert_node a (b ∷ n) = if lt_str b.name a.name then b ∷ insert_node a n else a ∷ b ∷ n

pub sort_nodes : List NodeInfo → List NodeInfo
unfolding insert_node
sort_nodes [] = []
sort_nodes (a ∷ n) = insert_node a (sort_nodes n)

unfoldable pub build_node_info : Config → List NodeInfo
unfolding hosts_prefix sort_nodes
build_node_info c = sort_nodes (map (node_info (hosts_prefix c)) c.topology)

unfoldable pub calc_name_server : Node → Config → Bytes
calc_name_server n c =
    if is_ipv6_mode c
    then c.dns64.server_ip
    else if is_dual_stack c && not (eq_str c.mgmt.info0.mode c.service.info.mode)
    then c.mgmt.info1.prefix ++ show_int n.id
    else c.mgmt.info0.prefix ++ show_int n.id

module _ (o : Os) where
  unfoldable pub add_host_entries : Config → M (o.World) Done
  add_host_entries c = do
    let file = join_path c.general.etc_area etc_hosts_file
    let backup = join_path c.general.etc_area etc_hosts_backup_file
    let nodes = build_node_info c
    contents ← get_file_contents o file
    save_file_contents o (update_hosts_info contents nodes) file backup

  unfoldable pub add_resolv_conf_entry : Node → Config → M (o.World) Done
  add_resolv_conf_entry n c = do
    let file = join_path c.general.etc_area etc_resolv_conf_file
    let backup = join_path c.general.etc_area etc_resolv_conf_backup_file
    contents ← get_file_contents o file
    save_file_contents o (update_resolv_conf_info contents (calc_name_server n c)) file backup
