-- ===== src/Tests/Nodes.antt =====
-- The preparation of a node of the cluster, at concrete data, and two tests of texts.
use lazyjack.Base.{◌≡◌, refl, true, some, [], ◌∷◌, ◌++◌, err, str, eq_str, ok}
use lazyjack.Base.Split.{split, join}
use lazyjack.World.Path.{join_path}
use lazyjack.Files.{get_file_contents, save_file_contents}
use lazyjack.EtcFiles.Hosts.{update_hosts_info}
use lazyjack.EtcFiles.Resolv.{update_resolv_conf_info}
use lazyjack.NetMgr.{add_address_to_link, set_link_mtu}
use lazyjack.Prepare.{prepare_cluster_node}
use lazyjack.Prepare.Etc.{
  build_node_info, calc_name_server, add_host_entries, add_resolv_conf_entry,
}
use lazyjack.Prepare.Kubelet.{
  create_kubelet_drop_in_contents, create_kubelet_drop_in_file, create_kube_adm_config_file,
}
use lazyjack.Prepare.Routes.{configure_management_interface}
use lazyjack.Prepare.Readied.{
  hosts_path, resolv_path, drop_in_path, HasOwnPaths, SparesFiles, prepare_cluster_node-readied,
}
use lazyjack.Config.{Node}
use lazyjack.Cleanup.{all_errors}
use lazyjack.Validate.Version.{parse_version}
use lazyjack.Tests.Memory.{Store, memory, no_addresses, contents, memory-laws}
use lazyjack.Tests.Etc.{
  config, differ, files, hosts_text, hosts_there, resolv_text, resolv_there, node,
}

config_HasOwnPaths : HasOwnPaths config
unfolding join_path str eq_str join split
config_HasOwnPaths = record {
  hosts_backup = differ _ _ refl;
  hosts_resolv = differ _ _ refl;
  hosts_resolv_backup = differ _ _ refl;
  hosts_drop_in = differ _ _ refl;
  hosts_kubeadm = differ _ _ refl;
  hosts_kubeadm_backup = differ _ _ refl;
  resolv_hosts = differ _ _ refl;
  resolv_hosts_backup = differ _ _ refl;
  resolv_backup = differ _ _ refl;
  resolv_drop_in = differ _ _ refl;
  resolv_kubeadm = differ _ _ refl;
  resolv_kubeadm_backup = differ _ _ refl;
  drop_in_kubeadm = differ _ _ refl;
  drop_in_kubeadm_backup = differ _ _ refl;
}

memory-SparesFiles : SparesFiles memory contents
memory-SparesFiles = record {
  mkdir_keeps = λ f g. record { kept_part = λ w. refl };
  outside = λ g. record {
    parse_keeps = λ s. record { kept_part = λ w. refl };
    links_keep = record { kept_part = λ w. refl };
    addrs_keep = λ l f. record { kept_part = λ w. refl };
    route_keeps = λ r. record { kept_part = λ w. refl };
  };
  by_name_keeps = λ g n. record { kept_part = λ w. refl };
  parse_addr_keeps = λ g s. record { kept_part = λ w. refl };
  replace_keeps = λ g l a. record { kept_part = λ w. refl };
  mtu_keeps = λ g l m. record { kept_part = λ w. refl };
}

abbrev leader : Node
leader = record (node (str "a") 3 (str "master")) { is_master = true }

abbrev node_prepared : Store
node_prepared = (prepare_cluster_node memory no_addresses leader config files).1

node_prepared_ok : (prepare_cluster_node memory no_addresses leader config files).0 ≡ ok tt
unfolding prepare_cluster_node configure_management_interface add_address_to_link set_link_mtu
    add_host_entries add_resolv_conf_entry create_kubelet_drop_in_file create_kube_adm_config_file
    join_path str eq_str get_file_contents join split save_file_contents
node_prepared_ok = refl

prepare_cluster_node-readied_example :
    (contents (hosts_path config) node_prepared
      ≡ some (update_hosts_info hosts_text (build_node_info config)))
    × (contents (resolv_path config) node_prepared
        ≡ some (update_resolv_conf_info resolv_text (calc_name_server leader config)))
    × (contents (drop_in_path config) node_prepared ≡ some (create_kubelet_drop_in_contents config))
prepare_cluster_node-readied_example =
    prepare_cluster_node-readied memory no_addresses contents memory-laws memory-SparesFiles leader
      config hosts_text resolv_text files config_HasOwnPaths hosts_there resolv_there
      node_prepared_ok

-- The texts of errors are a format: a percent sign is doubled, or loses its verb.
all_errors_format :
    all_errors (str "a%d" ∷ str "50%%" ∷ str "%" ∷ []) ≡ err (str "a%!d(MISSING). 50%. %!(NOVERB)")
unfolding all_errors str
all_errors_format = refl

-- A character of several bytes stands for one `.`, an invalid byte too.
parse_version_runes :
    (parse_version (str "v1.11.0-rc") ≡ ok (str "1.11"))
    × (parse_version (str "v1" ++ 0xc3 ∷ 0xa9 ∷ str "11.0")
        ≡ ok (str "1" ++ 0xc3 ∷ 0xa9 ∷ str "11"))
    × (parse_version (str "v1" ++ 0xff ∷ str "11.0") ≡ ok (str "1" ++ 0xff ∷ str "11"))
unfolding parse_version str
parse_version_runes = (refl, refl, refl)
