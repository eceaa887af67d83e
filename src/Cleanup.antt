-- ===== src/Cleanup.antt =====
-- cleanup.go: the action "clean". A step that fails does not stop the ones behind it: the texts
-- of the errors are collected and returned as one error.
pub mod Restore
pub mod Attempts
pub mod Gone
use lazyjack.Base.{
  ℕ, Bytes, List, [], ◌∷◌, ◌++◌, Bool, true, false, not, ◌&&◌, ◌||◌, ◌==◌, leb, Option, none, some,
  if◌then◌else◌, str, eq_str, quote, Result, ok, err, panic, Done, M, ◌>>=◌, ◌>>◌, pure, fail, wrap,
  collect, lift,
}
use lazyjack.Net.{Net}
use lazyjack.World.{Os}
use lazyjack.World.Path.{join_path}
use lazyjack.Files.{get_file_contents, save_file_contents}
use lazyjack.Config.{
  Config, Node, ResourceState, not_present, running, exists, node_of, is_ipv6_mode, is_dual_stack,
  kubelet_drop_in_file, etc_hosts_file, etc_hosts_backup_file, etc_resolv_conf_file,
  etc_resolv_conf_backup_file, dns64_name, dns64_volume, nat64_name, support_net_name,
}
use lazyjack.EtcFiles.Edit.{revert_config_info}
use lazyjack.Address.{build_node_cidr}
use lazyjack.Hypervisor.{Hypervisor}
use lazyjack.Docker.{docker}
use lazyjack.NetMgr.{
  remove_address_from_link, delete_route_using_support_net_interface,
  delete_route_using_interface_name,
}
use lazyjack.Prepare.Routes.{find_host_ip_for_nat64}

-- `strings.Join(all, ". ")`
join_errors : List Bytes → Bytes
join_errors [] = []
join_errors (e ∷ []) = e
join_errors (e ∷ f ∷ es) = e ++ str ". " ++ join_errors (f ∷ es)

-- A flag, a width or a precision between `%` and its verb.
is_format_flag : ℕ → Bool
is_format_flag c =
    c == b'+' || c == b'-' || c == b'#' || c == b' ' || c == b'.' || (leb b'0' c && leb c b'9')

-- What `fmt.Errorf` makes of a text with no operands: `%%` is a percent sign, any other verb is
-- reported as missing its operand, and a `%` with nothing behind it as missing its verb. The flag
-- tells that a `%` was read. Explicit operand indexes, `*`, and verbs outside ASCII are not treated.
format_from : Bool → Bytes → Bytes
unfolding is_format_flag
format_from false [] = []
format_from true [] = str "%!(NOVERB)"
format_from false (c ∷ s) = elim (c == b'%') [
  | true ↦ format_from true s
  | false ↦ c ∷ format_from false s
]
format_from true (c ∷ s) = elim (c == b'%') [
  | true ↦ b'%' ∷ format_from false s
  | false ↦ elim (is_format_flag c) [
    | true ↦ format_from true s
    | false ↦ str "%!" ++ c ∷ str "(MISSING)" ++ format_from false s
  ]
]

-- `fmt.Errorf` of the joined texts, which takes them as a format, if there are any.
unfoldable pub all_errors : List Bytes → Result Done
unfolding join_errors format_from
all_errors [] = ok tt
all_errors (e ∷ es) = err (format_from false (join_errors (e ∷ es)))

-- A step that is taken under a condition.
abbrev pub collect_if : {S : Type 0} → Bool → List Bytes → M S Done → M S (List Bytes)
collect_if true all m = collect all m
collect_if false all m = pure all

module _ (o : Os) where
  unfoldable pub revert_entries : Bytes → Bytes → M (o.World) Done
  revert_entries file backup = do
    contents ←
        wrap (get_file_contents o file)
          (λ e. str "unable to read file " ++ file ++ str " to revert: " ++ e)
    save_file_contents o (revert_config_info contents) file backup

  -- `os.IsNotExist` on the error of `os.Remove` is asked of the file before it is removed.
  unfoldable pub remove_drop_in_file : Config → M (o.World) Done
  remove_drop_in_file c w =
      let file = join_path c.general.systemd_area kubelet_drop_in_file in
      let missing = o.is_missing file w in
      wrap (o.remove file)
        (λ e.
          if missing
          then str "no kubelet drop-in file to remove"
          else str "unable to remove kubelet drop-in file (" ++ file ++ str "): " ++ e)
        w

  unfoldable pub revert_etc_area_file : Config → Bytes → Bytes → M (o.World) Done
  unfolding revert_entries
  revert_etc_area_file c file backup =
      revert_entries (join_path c.general.etc_area file) (join_path c.general.etc_area backup)

module _ {World : Type 0} (h : Hypervisor World) where
  container_for : Bytes → ResourceState → M World Done
  container_for name not_present =
      fail (str "skipping - No " ++ quote name ++ str " container exists")
  container_for name running =
      wrap (h.delete_container name)
        (λ e. str "unable to remove " ++ quote name ++ str " container: " ++ e)
  container_for name exists =
      wrap (h.delete_container name)
        (λ e. str "unable to remove " ++ quote name ++ str " container: " ++ e)

  unfoldable pub remove_container : Bytes → M World Done
  unfolding container_for
  remove_container name = h.resource_state name >>= container_for name

  volume_for : ResourceState → M World Done
  volume_for not_present = fail (str "skipping - No " ++ quote dns64_volume ++ str " volume")
  volume_for running = h.delete_volume dns64_volume
  volume_for exists = h.delete_volume dns64_volume

  unfoldable pub cleanup_dns64_server : M World Done
  unfolding volume_for all_errors
  cleanup_dns64_server = do
    all ← collect [] (remove_container dns64_name)
    all ← collect all (h.resource_state dns64_volume >>= volume_for)
    lift (all_errors all)

  support_network_gone : ResourceState → M World Done
  support_network_gone not_present = fail (str "skipping - support network does not exists")
  support_network_gone running =
      wrap (h.delete_network support_net_name) (λ e. str "unable to remove support network: " ++ e)
  support_network_gone exists =
      wrap (h.delete_network support_net_name) (λ e. str "unable to remove support network: " ++ e)

  unfoldable pub cleanup_support_network : M World Done
  unfolding support_network_gone
  cleanup_support_network = h.resource_state support_net_name >>= support_network_gone

module _ (o : Os) (net : Net) where
  unfoldable pub remove_management_ip : Node → Config → M (o.World) Done
  remove_management_ip node c = do
    wrap (remove_address_from_link o net (build_node_cidr c.mgmt.info0 node.id) node.interface)
        (λ e. str "unable to remove IP from management interface: " ++ e)
    if is_dual_stack c
        then wrap
            (remove_address_from_link o net (build_node_cidr c.mgmt.info1 node.id) node.interface)
            (λ e. str "unable to remove second IP from management interface: " ++ e)
        else pure tt

  abbrev delete_error : Bytes → Bytes → Bytes → Bytes
  delete_error dest gw e =
      str "unable to delete route to " ++ dest ++ str " via " ++ gw ++ str ": " ++ e

  -- A route over the node's interface; the gateway is empty in the text if none is found.
  delete_via : Bytes → Bytes → Node → Option Bytes → M (o.World) Done
  delete_via missing dest node none = fail (delete_error dest [] missing)
  delete_via missing dest node (some gw) =
      wrap (delete_route_using_interface_name o net dest gw node.interface) (delete_error dest gw)

  unfoldable pub remove_route_for_dns64 : Node → Config → M (o.World) Done
  unfolding delete_via
  remove_route_for_dns64 node c =
      if node.is_nat64_server
      then wrap
          (delete_route_using_support_net_interface o net c.dns64.cidr c.nat64.server_ip
            c.support.v4cidr)
          (delete_error c.dns64.cidr c.nat64.server_ip)
      else delete_via (str "unable to find node with NAT64 server") c.dns64.cidr node
          (find_host_ip_for_nat64 c)

  unfoldable pub remove_route_for_nat64 : Node → Config → M (o.World) Done
  unfolding delete_via
  remove_route_for_nat64 node c =
      delete_via (str "unable to find node with NAT64 server configured") c.support.cidr node
        (find_host_ip_for_nat64 c)

  unfoldable pub cleanup_cluster_node : Node → Config → M (o.World) Done
  unfolding all_errors
  cleanup_cluster_node node c = do
    all ← collect [] (remove_drop_in_file o c)
    all ← collect all (remove_management_ip node c)
    all ← collect all (revert_etc_area_file o c etc_hosts_file etc_hosts_backup_file)
    all ← collect all (revert_etc_area_file o c etc_resolv_conf_file etc_resolv_conf_backup_file)
    all ← collect_if (is_ipv6_mode c) all (remove_route_for_dns64 node c)
    all ←
        collect_if (is_ipv6_mode c && (not node.is_nat64_server && not node.is_dns64_server)) all
          (remove_route_for_nat64 node c)
    lift (all_errors all)

  unfoldable pub cleanup_nat64_server : Hypervisor (o.World) → Config → M (o.World) Done
  unfolding all_errors
  cleanup_nat64_server h c = do
    all ← collect [] (
        delete_route_using_support_net_interface o net c.nat64.v4_mapping_cidr c.nat64.v4_mapping_ip
          c.support.v4cidr)
    all ← collect all (remove_container h nat64_name)
    lift (all_errors all)

  unfoldable pub cleanup : Bytes → Config → M (o.World) Done
  unfolding all_errors
  cleanup name c = do
    let node = node_of name c
    let v6 = is_ipv6_mode c
    all ← collect_if (node.is_master || node.is_minion) [] (cleanup_cluster_node node c)
    all ← collect_if (v6 && node.is_dns64_server) all (cleanup_dns64_server (docker o))
    all ← collect_if (v6 && node.is_nat64_server) all (cleanup_nat64_server (docker o) c)
    all ←
        collect_if (v6 && (node.is_dns64_server || node.is_nat64_server)) all
          (cleanup_support_network (docker o))
    lift (all_errors all)
