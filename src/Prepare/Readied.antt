-- ===== src/Prepare/Readied.antt =====
-- The files of a node behind its preparation.
use lazyjack.Base.{
  ℤ, Bytes, ◌++◌, ◌≡◌, ◌≢◌, ◌∙◌, ap, not, ◌&&◌, Option, none, some, str, ok, Done, M, ◌>>=◌, ◌>>◌,
  when,
}
use lazyjack.Base.Rules.{
  Keeps, Keeps->>=, Keeps-wrap, Keeps-if, Keeps-when, Keeps-pure, Keeps-fail, Keeps-lift,
  Keeps-tolerate, Ensures, Ensures->>, Ensures-wrap,
}
use lazyjack.Net.{Net}
use lazyjack.World.{Os, Link, Addr}
use lazyjack.World.Path.{join_path}
use lazyjack.Files.{get_file_contents, save_file_contents}
use lazyjack.Files.Laws.{FileLaws, save_file_contents-others}
use lazyjack.Files.Edited.{get_file_contents-content, edit_file-content}
use lazyjack.NetMgr.{add_address_to_link, set_link_mtu, add_route_using_interface_name}
use lazyjack.NetMgr.Frame.{IsOutside, add_route_using_support_net_interface-Keeps}
use lazyjack.Config.{
  Config, Node, etc_hosts_file, etc_hosts_backup_file, etc_resolv_conf_file,
  etc_resolv_conf_backup_file, kubelet_drop_in_file, kube_adm_conf_file, is_dual_stack,
  is_ipv6_mode,
}
use lazyjack.EtcFiles.Hosts.{update_hosts_info}
use lazyjack.EtcFiles.Resolv.{update_resolv_conf_info}
use lazyjack.Prepare.{prepare_cluster_node}
use lazyjack.Prepare.Etc.{
  build_node_info, calc_name_server, add_host_entries, add_resolv_conf_entry,
}
use lazyjack.Prepare.Kubelet.{
  create_kubelet_drop_in_contents, create_kubelet_drop_in_file, create_kube_adm_config_file,
}
use lazyjack.Prepare.Routes.{
  configure_management_interface, route_to_nat64, create_route_to_nat64_server_for_dns64_subnet,
  create_route_to_support_network_for_other_nodes,
}

-- The paths that the preparation of a node writes.
abbrev pub hosts_path : Config → Bytes
hosts_path c = join_path c.general.etc_area etc_hosts_file

abbrev pub hosts_backup_path : Config → Bytes
hosts_backup_path c = join_path c.general.etc_area etc_hosts_backup_file

abbrev pub resolv_path : Config → Bytes
resolv_path c = join_path c.general.etc_area etc_resolv_conf_file

abbrev pub resolv_backup_path : Config → Bytes
resolv_backup_path c = join_path c.general.etc_area etc_resolv_conf_backup_file

abbrev pub drop_in_path : Config → Bytes
drop_in_path c = join_path c.general.systemd_area kubelet_drop_in_file

abbrev pub kubeadm_path : Config → Bytes
kubeadm_path c = join_path c.general.work_area kube_adm_conf_file

-- No step writes a file of another step.
pub record HasOwnPaths (c : Config) : Type 0 where
  pub hosts_backup : hosts_path c ≢ hosts_backup_path c
  pub hosts_resolv : hosts_path c ≢ resolv_path c
  pub hosts_resolv_backup : hosts_path c ≢ resolv_backup_path c
  pub hosts_drop_in : hosts_path c ≢ drop_in_path c
  pub hosts_kubeadm : hosts_path c ≢ kubeadm_path c
  pub hosts_kubeadm_backup : hosts_path c ≢ kubeadm_path c ++ str ".bak"
  pub resolv_hosts : resolv_path c ≢ hosts_path c
  pub resolv_hosts_backup : resolv_path c ≢ hosts_backup_path c
  pub resolv_backup : resolv_path c ≢ resolv_backup_path c
  pub resolv_drop_in : resolv_path c ≢ drop_in_path c
  pub resolv_kubeadm : resolv_path c ≢ kubeadm_path c
  pub resolv_kubeadm_backup : resolv_path c ≢ kubeadm_path c ++ str ".bak"
  pub drop_in_kubeadm : drop_in_path c ≢ kubeadm_path c
  pub drop_in_kubeadm_backup : drop_in_path c ≢ kubeadm_path c ++ str ".bak"

-- Neither making a directory nor an operation on links and addresses changes a file.
pub record SparesFiles (o : Os) (content : Bytes → o.World → Option Bytes) : Type 0 where
  pub mkdir_keeps : (f g : Bytes) → Keeps (content g) (o.mkdir_all f)
  pub outside : (g : Bytes) → IsOutside o (content g)
  pub by_name_keeps : (g n : Bytes) → Keeps (content g) (o.link_by_name n)
  pub parse_addr_keeps : (g s : Bytes) → Keeps (content g) (o.parse_addr s)
  pub replace_keeps : (g : Bytes) (l : Link) (a : Addr) → Keeps (content g) (o.addr_replace l a)
  pub mtu_keeps : (g : Bytes) (l : Link) (m : ℤ) → Keeps (content g) (o.link_set_mtu l m)

module _ (o : Os) (net : Net) (content : Bytes → o.World → Option Bytes) (L : FileLaws o content)
    (S : SparesFiles o content) where
  module _ (g : Bytes) where
    add_address-Keeps : (ip intf : Bytes) → Keeps (content g) (add_address_to_link o net ip intf)
    unfolding add_address_to_link
    add_address-Keeps ip intf = Keeps->>= (Keeps-wrap _ (S.by_name_keeps g intf)) λ link.
        Keeps->>= (Keeps-wrap _ (S.parse_addr_keeps g ip))
          λ addr. Keeps-wrap _ (S.replace_keeps g link addr)

    configure-Keeps :
        (node : Node) (c : Config) → Keeps (content g) (configure_management_interface o net node c)
    unfolding configure_management_interface set_link_mtu
    configure-Keeps node c = Keeps->>= (add_address-Keeps _ _) λ _.
        Keeps->>= (Keeps-when (is_dual_stack c) (add_address-Keeps _ _)) λ _.
          Keeps->>= (Keeps-wrap _ (S.by_name_keeps g node.interface))
            λ link. Keeps-wrap _ (S.mtu_keeps g link c.pod.mtu)

    interface_route-Keeps :
        (dest gw intf : Bytes)
        → Keeps (content g) (add_route_using_interface_name o net dest gw intf)
    unfolding add_route_using_interface_name
    interface_route-Keeps dest gw intf =
        Keeps->>= (Keeps-wrap _ (S.by_name_keeps g intf))
          λ link. Keeps->>= Keeps-lift λ route. (S.outside g).route_keeps route

    to_nat64-Keeps :
        (dest : Bytes) (node : Node) (gw : Option Bytes)
        → Keeps (content g) (route_to_nat64 o net dest node gw)
    unfolding route_to_nat64
    to_nat64-Keeps dest node none = Keeps-fail
    to_nat64-Keeps dest node (some gw) = Keeps-tolerate _ (interface_route-Keeps dest gw _)

    routes-Keeps :
        (node : Node) (c : Config)
        → Keeps (content g) (
            when (is_ipv6_mode c) (
              create_route_to_nat64_server_for_dns64_subnet o net node c
              >> create_route_to_support_network_for_other_nodes o net node c))
    unfolding create_route_to_nat64_server_for_dns64_subnet
        create_route_to_support_network_for_other_nodes
    routes-Keeps node c = Keeps-when (is_ipv6_mode c) (
        Keeps->>=
          (Keeps-if (node.is_nat64_server)
            (Keeps-tolerate _
              (add_route_using_support_net_interface-Keeps o net (content g) (S.outside g) _ _ _))
            (to_nat64-Keeps _ node _))
          λ _.
            Keeps-if (not node.is_nat64_server && not node.is_dns64_server)
              (to_nat64-Keeps _ node _) Keeps-pure)

    save-Keeps :
        (new file backup : Bytes)
        → g ≢ file
        → g ≢ backup
        → Keeps (content g) (save_file_contents o new file backup)
    save-Keeps new file backup a b = record {
      kept_part = λ s. save_file_contents-others o content L new file backup g s a b;
    }

    edit-Keeps :
        (file backup : Bytes) (change : Bytes → Bytes)
        → g ≢ file
        → g ≢ backup
        → Keeps
            (content g)
            (get_file_contents o file >>= λ d. save_file_contents o (change d) file backup)
    unfolding get_file_contents
    edit-Keeps file backup change a b =
        Keeps->>= (Keeps-wrap _ (record { kept_part = λ s. L.read_keeps file g s }))
          λ d. save-Keeps (change d) file backup a b

  -- An edit of one file beside another file that it leaves alone.
  edit-Ensures :
      (file backup other : Bytes) (change : Bytes → Bytes) (old : Bytes) (x : Option Bytes)
      → file ≢ backup
      → other ≢ file
      → other ≢ backup
      → Ensures
          (get_file_contents o file >>= λ d. save_file_contents o (change d) file backup)
          (λ s. (content file s ≡ some old) × (content other s ≡ x))
          (λ s. (content file s ≡ some (change old)) × (content other s ≡ x))
  edit-Ensures file backup other change old x ne a b = record {
    ensured = λ s (p, q) e.
        let run = get_file_contents o file >>= λ d. save_file_contents o (change d) file backup in
        (
          edit_file-content o content L (get_file_contents o file) change file backup old s
              (run s).1 ne (λ d. get_file_contents-content o content L file old d s p)
              (ap (λ r. (r, (run s).1)) e),
          (edit-Keeps other file backup change a b).kept_part s ∙ q,
        );
  }

  -- The drop-in file is written; the two edited files stay.
  drop_in-Ensures :
      (c : Config) (x y : Option Bytes)
      → HasOwnPaths c
      → Ensures
          (create_kubelet_drop_in_file o c)
          (λ s. (content (hosts_path c) s ≡ x) × (content (resolv_path c) s ≡ y))
          (λ s.
            ((content (hosts_path c) s ≡ x) × (content (resolv_path c) s ≡ y))
            × (content (drop_in_path c) s ≡ some (create_kubelet_drop_in_contents c)))
  unfolding create_kubelet_drop_in_file
  drop_in-Ensures c x y paths =
      Ensures->> {Q = λ s. (content (hosts_path c) s ≡ x) × (content (resolv_path c) s ≡ y)}
        (Ensures-wrap _ (record {
          ensured = λ s (p, q) e. (
            (S.mkdir_keeps _ (hosts_path c)).kept_part s ∙ p,
            (S.mkdir_keeps _ (resolv_path c)).kept_part s ∙ q,
          );
        }))
        (record {
          ensured = λ s (p, q) e. (
            (
              L.write_keeps _ _ (hosts_path c) s paths.hosts_drop_in ∙ p,
              L.write_keeps _ _ (resolv_path c) s paths.resolv_drop_in ∙ q,
            ),
            L.write_content _ _ s e,
          );
        })

  hosts_edit-Ensures :
      (c : Config) (old : Bytes) (x : Option Bytes)
      → HasOwnPaths c
      → Ensures
          (add_host_entries o c)
          (λ s. (content (hosts_path c) s ≡ some old) × (content (resolv_path c) s ≡ x))
          (λ s.
            (content (hosts_path c) s ≡ some (update_hosts_info old (build_node_info c)))
            × (content (resolv_path c) s ≡ x))
  unfolding add_host_entries
  hosts_edit-Ensures c old x paths =
      edit-Ensures (hosts_path c) (hosts_backup_path c) (resolv_path c)
        (λ d. update_hosts_info d (build_node_info c)) old x paths.hosts_backup paths.resolv_hosts
        paths.resolv_hosts_backup

  resolv_edit-Ensures :
      (node : Node) (c : Config) (old : Bytes) (x : Option Bytes)
      → HasOwnPaths c
      → Ensures
          (add_resolv_conf_entry o node c)
          (λ s. (content (resolv_path c) s ≡ some old) × (content (hosts_path c) s ≡ x))
          (λ s.
            (content (resolv_path c) s
              ≡ some (update_resolv_conf_info old (calc_name_server node c)))
            × (content (hosts_path c) s ≡ x))
  unfolding add_resolv_conf_entry
  resolv_edit-Ensures node c old x paths =
      edit-Ensures (resolv_path c) (resolv_backup_path c) (hosts_path c)
        (λ d. update_resolv_conf_info d (calc_name_server node c)) old x paths.resolv_backup
        paths.hosts_resolv paths.hosts_resolv_backup

  kubeadm_file-Keeps :
      (g : Bytes) (node : Node) (c : Config)
      → g ≢ kubeadm_path c
      → g ≢ kubeadm_path c ++ str ".bak"
      → Keeps (content g) (when (node.is_master) (create_kube_adm_config_file o node c))
  unfolding create_kube_adm_config_file
  kubeadm_file-Keeps g node c a b = Keeps-when (node.is_master) (save-Keeps g _ _ _ a b)

  -- If preparing a node of the cluster succeeds, /etc/hosts and /etc/resolv.conf have their former
  -- texts as edited for the configuration's nodes and for the node's name server, and the kubelet's
  -- drop-in file has its contents: no later step undoes an earlier one. The steps must write files
  -- of their own, and neither the network's operations nor making a directory may change a file.
  pub prepare_cluster_node-readied :
      (node : Node) (c : Config) (hosts resolv : Bytes) (w : o.World)
      → HasOwnPaths c
      → content (hosts_path c) w ≡ some hosts
      → content (resolv_path c) w ≡ some resolv
      → (prepare_cluster_node o net node c w).0 ≡ ok tt
      → (content (hosts_path c) (prepare_cluster_node o net node c w).1
          ≡ some (update_hosts_info hosts (build_node_info c)))
        × (content (resolv_path c) (prepare_cluster_node o net node c w).1
            ≡ some (update_resolv_conf_info resolv (calc_name_server node c)))
        × (content (drop_in_path c) (prepare_cluster_node o net node c w).1
            ≡ some (create_kubelet_drop_in_contents c))
  unfolding prepare_cluster_node
  prepare_cluster_node-readied node c hosts resolv w paths h r e =
      let ((p, q), d) = readied.ensured w (h, r) e in (p, q, d)
    where
      hosts' : Bytes
      hosts' = update_hosts_info hosts (build_node_info c)

      resolv' : Bytes
      resolv' = update_resolv_conf_info resolv (calc_name_server node c)

      Both : Bytes → Bytes → o.World → Type 0
      Both a b s = (content (hosts_path c) s ≡ some a) × (content (resolv_path c) s ≡ some b)

      All3 : o.World → Type 0
      All3 s =
          Both hosts' resolv' s
          × (content (drop_in_path c) s ≡ some (create_kubelet_drop_in_contents c))

      kept :
          (m : M (o.World) Done)
          → Keeps (content (hosts_path c)) m
          → Keeps (content (resolv_path c)) m
          → Keeps (content (drop_in_path c)) m
          → Ensures m All3 All3
      kept m k l n = record {
        ensured = λ s ((p, q), d) _. ((k.kept_part s ∙ p, l.kept_part s ∙ q), n.kept_part s ∙ d);
      }

      resolv_edit :
          Ensures (add_resolv_conf_entry o node c) (Both hosts' resolv) (Both hosts' resolv')
      resolv_edit = record {
        ensured = λ s (p, q) e.
            let (a, b) =
              (resolv_edit-Ensures node c resolv (some hosts') paths).ensured s (q, p) e in
            (b, a);
      }

      readied : Ensures (prepare_cluster_node o net node c) (Both hosts resolv) All3
      readied =
          Ensures->> {Q = Both hosts resolv}
            (record {
              ensured = λ s (p, q) _. (
                (configure-Keeps (hosts_path c) node c).kept_part s ∙ p,
                (configure-Keeps (resolv_path c) node c).kept_part s ∙ q,
              );
            })
            (Ensures->> {Q = Both hosts' resolv} (hosts_edit-Ensures c hosts (some resolv) paths) (
              Ensures->> {Q = Both hosts' resolv'} resolv_edit (
                Ensures->> {Q = All3} (drop_in-Ensures c (some hosts') (some resolv') paths) (
                  Ensures->> {Q = All3}
                    (kept _
                      (kubeadm_file-Keeps _ node c paths.hosts_kubeadm paths.hosts_kubeadm_backup)
                      (kubeadm_file-Keeps _ node c paths.resolv_kubeadm paths.resolv_kubeadm_backup)
                      (kubeadm_file-Keeps _ node c paths.drop_in_kubeadm
                        paths.drop_in_kubeadm_backup))
                    (kept _ (routes-Keeps _ node c) (routes-Keeps _ node c)
                      (routes-Keeps _ node c))))))
