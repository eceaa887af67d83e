-- ===== src/Tests/Whole.antt =====
-- The theorems on the whole configuration, on kubeadm's file, on cleaning up and on addresses, at
-- concrete data.
use lazyjack.Base.{
  ◌<◌, Bytes, [], ◌∷◌, ◌++◌, ◌≡◌, ◌↔◌, refl, Bool, true, false, none, some, arith, str, eq_str,
  show_nat, show_int, equal_fold, to_lower, has_prefix, has_suffix, Result, ok, err, panic,
}
use lazyjack.Base.Split.{split, join, text_lines, unlines, Lacks}
use lazyjack.Base.Sequence.{NonePanics}
use lazyjack.Net.{Net}
use lazyjack.Config.{Config, Node, NetInfo, put, node_of, ipv6_net_mode}
use lazyjack.World.Path.{join_path}
use lazyjack.NetMgr.{remove_address_from_link}
use lazyjack.Files.{do_exec_command, get_file_contents, save_file_contents}
use lazyjack.EtcFiles.Edit.{Clean}
use lazyjack.EtcFiles.Resolv.{update_resolv_conf_info}
use lazyjack.EtcFiles.Resolv.Again.{update_resolv_conf_info_idem}
use lazyjack.EtcFiles.Yaml.{update_config_yaml_contents}
use lazyjack.EtcFiles.Yaml.Lines.{
  credentials, yaml_lines, others, token_lines, repeated, update_config_yaml_contents_lem,
}
use lazyjack.Validate.General.{
  validate_plugin, validate_network_mode, validate_cidr, validate_pod_fields, validate_dns64_fields,
  validate_nat64_fields, setup_base_areas,
}
use lazyjack.Validate.Token.{validate_token, validate_token_cert_hash}
use lazyjack.Validate.Topology.{
  validate_unique_ids, validate_op_modes_for_all_nodes, validate_node_op_modes,
}
use lazyjack.Validate.Prefix.{
  extract_net_info, get_net_and_mask, is_ipv4, check_mgmt_size, check_service_size, check_pod_size,
  make_v4_prefix_from_network,
}
use lazyjack.Validate.Version.{parse_version}
use lazyjack.Validate.Contents.{validate_config_contents, validate_software_versions, setup_handles}
use lazyjack.Validate.Contents.Valid.{IsValid, validate_config_contents-IsValid}
use lazyjack.Validate.Topology.Master.{FreshNames}
use lazyjack.Validate.Derived.{calculate_derived_fields}
use lazyjack.Prepare.Etc.{node_info}
use lazyjack.Cleanup.{
  remove_drop_in_file, remove_management_ip, revert_etc_area_file, cleanup_cluster_node, cleanup,
}
use lazyjack.Cleanup.Attempts.{
  MakesAll, node_steps, all_steps, cleanup_cluster_node-MakesAll, cleanup-MakesAll,
}
use lazyjack.Address.{build_node_cidr}
use lazyjack.Address.Hosts.{build_node_cidr-node_info}
use lazyjack.Tests.Memory.{Store, memory, no_addresses, kubeadm_11}
use lazyjack.Tests.Etc.{node, config}

abbrev pub no_files : Store
no_files f = none

abbrev pub worker : Node
worker = node (str "b") 2 (str "minion")

abbrev pub v6_info : NetInfo
v6_info = record { prefix = str "fd00:20::"; size = 64; mode = ipv6_net_mode }

build_node_cidr-node_info_example :
    (build_node_cidr v6_info worker.id
      ≡ (node_info v6_info.prefix (str "b", worker)).ip ++ str "/" ++ show_nat v6_info.size)
    ↔ (2 < 10)
build_node_cidr-node_info_example =
    build_node_cidr-node_info v6_info (str "b") worker 2 refl refl (omega arith)

abbrev resolv_text : Bytes
resolv_text = str "nameserver 8.8.8.8\nsearch x\n"

resolv-Clean : Clean resolv_text
unfolding text_lines str has_prefix has_suffix
resolv-Clean = ((refl, refl), ((refl, refl), tt))

abbrev server : Bytes
server = str "10.0.0.3"

one_line : Lacks 10 server
unfolding str
one_line = omega arith

update_resolv_conf_info-idem_example :
    update_resolv_conf_info (update_resolv_conf_info resolv_text server) server
    ≡ update_resolv_conf_info resolv_text server
update_resolv_conf_info-idem_example =
    update_resolv_conf_info_idem resolv_text server resolv-Clean one_line

abbrev yaml_text : Bytes
yaml_text = str "general:\n    token: \"old\"\ntopology:\n"

update_config_yaml_contents_lem_example :
    (update_config_yaml_contents yaml_text (str "t") (str "h")
      ≡ unlines (yaml_lines (str "t") (str "h") true (text_lines yaml_text)))
    × (others (yaml_lines (str "t") (str "h") true (text_lines yaml_text))
        ≡ others (text_lines yaml_text))
    × (token_lines (yaml_lines (str "t") (str "h") true (text_lines yaml_text))
        ≡ repeated (credentials (str "t") (str "h")) true (text_lines yaml_text))
update_config_yaml_contents_lem_example =
    update_config_yaml_contents_lem (str "t") (str "h") yaml_text

none_panics : NonePanics (node_steps memory no_addresses worker config) no_files
unfolding remove_drop_in_file remove_management_ip revert_etc_area_file remove_address_from_link
    build_node_cidr str eq_str join_path split join get_file_contents save_file_contents show_int
    show_nat
none_panics = (λ e. cc, (λ e. cc, (λ e. cc, (λ e. cc, tt))))

cleanup_cluster_node-MakesAll_example :
    MakesAll
      (node_steps memory no_addresses worker config)
      (cleanup_cluster_node memory no_addresses worker config)
      no_files
cleanup_cluster_node-MakesAll_example =
    cleanup_cluster_node-MakesAll memory no_addresses worker config no_files none_panics

abbrev pub cluster : Config
cluster = record config { topology = (str "b", record worker { is_minion = true }) ∷ [] }

NonePanics-in_cluster :
    NonePanics (all_steps memory no_addresses (node_of (str "b") cluster) cluster) no_files
unfolding remove_drop_in_file remove_management_ip revert_etc_area_file remove_address_from_link
    build_node_cidr str eq_str join_path split join get_file_contents save_file_contents show_int
    show_nat node_of cleanup_cluster_node
NonePanics-in_cluster = (λ e. cc, tt)

cleanup-MakesAll_example :
    MakesAll
      (all_steps memory no_addresses (node_of (str "b") cluster) cluster)
      (cleanup memory no_addresses (str "b") cluster)
      no_files
cleanup-MakesAll_example =
    cleanup-MakesAll memory no_addresses (str "b") cluster no_files NonePanics-in_cluster

-- Every text is the network 10.0.0.0/16.
abbrev pub one_network : Net
one_network = record {
  parse_cidr = λ s. some (10 ∷ 0 ∷ 0 ∷ 0 ∷ [], record { ip = 10 ∷ 0 ∷ 0 ∷ 0 ∷ []; ones = 16 });
  parse_ip = λ s. some (10 ∷ 0 ∷ 0 ∷ 0 ∷ []);
  ip_string = λ a. str "10.0.0.0";
  is_to4 = λ a. true;
  net_contains = λ n a. true;
}

abbrev pub asked : Config
asked = record config {
  mgmt = record (config.mgmt) { cidr = str "10.0.0.0/16" };
  service = record (config.service) { cidr = str "10.0.0.0/16" };
  pod = record (config.pod) { cidr = str "10.0.0.0/16" };
}

outcome : Result Config
outcome = (validate_config_contents kubeadm_11 one_network (some asked) true no_files).0

abbrev pub completed_or : Result Config → Config
completed_or (ok c) = c
completed_or (err e) = asked
completed_or panic = asked

pub fresh : FreshNames [] asked.topology
unfolding str eq_str
fresh = (tt, ((refl, tt), tt))

abbrev is_ok : Result Config → Bool
is_ok (ok c) = true
is_ok _ = false

is_ok-completed : (r : Result Config) → is_ok r ≡ true → r ≡ ok (completed_or r)
is_ok-completed (ok c) h = refl
is_ok-completed (err e) h = cc
is_ok-completed panic h = cc

accepted : is_ok outcome ≡ true
unfolding outcome validate_config_contents validate_plugin validate_network_mode validate_token
    validate_token_cert_hash validate_unique_ids validate_op_modes_for_all_nodes
    validate_node_op_modes validate_cidr validate_pod_fields validate_dns64_fields
    validate_nat64_fields calculate_derived_fields validate_software_versions parse_version
    setup_handles setup_base_areas str eq_str equal_fold to_lower split put extract_net_info
    get_net_and_mask is_ipv4 check_mgmt_size check_service_size check_pod_size
    make_v4_prefix_from_network do_exec_command
accepted = refl

passes :
    (validate_config_contents kubeadm_11 one_network (some asked) true no_files).0
    ≡ ok (completed_or outcome)
passes = unfold outcome in is_ok-completed outcome accepted

validate_config_contents-IsValid_example : IsValid true (completed_or outcome)
validate_config_contents-IsValid_example =
    validate_config_contents-IsValid kubeadm_11 one_network true asked (completed_or outcome)
      no_files fresh passes
