-- ===== src/Tests/Runs.antt =====
-- The theorems on whole actions and on addresses, at concrete data.
use lazyjack.Base.{
  Bytes, [], ◌∷◌, ◌++◌, ◌≡◌, ◌≢◌, refl, if◌then◌else◌, trim_left, trim_right, true, none, some,
  arith, pos, str, eq_str, Result, ok,
}
use lazyjack.Base.Sequence.{made, NonePanics}
use lazyjack.World.{Ran, succeeded}
use lazyjack.Config.{Config, point_to_point_plugin, node_of}
use lazyjack.Prepare.Etc.{build_node_info}
use lazyjack.Prepare.Etc.Unique.{UniqueIps, build_node_info-UniqueIps}
use lazyjack.Files.{do_exec_command, get_file_contents, save_file_contents}
use lazyjack.World.Path.{join_path}
use lazyjack.Base.Split.{split, join}
use lazyjack.Init.{
  initialize, extract_digest, extract_token, create_cert_key_area, create_key_for_ca,
  create_certificate_for_ca, create_x509_cert_for_ca, create_rsa_for_ca, create_digest_for_ca,
  create_token, update_config_yaml, open_permissions,
}
use lazyjack.Init.Saved.{IsApart, HasCredentials, initialize-HasCredentials}
use lazyjack.Validate.Token.{validate_token, validate_token_cert_hash}
use lazyjack.Plugin.{cleanup_plugin, remove_routes_for_pod_network, do_route_ops_on_nodes}
use lazyjack.Down.{stop_kubernetes, cleanup_for_plugin, tear_down}
use lazyjack.Down.Always.{down_steps, tear_down-made}
use lazyjack.Address.{build_node_cidr}
use lazyjack.Address.Distinct.{build_node_cidr_distinct}
use lazyjack.Tests.Memory.{Store, memory, memory_with, memory_with-laws, contents, no_addresses}
use lazyjack.Tests.Etc.{config}
use lazyjack.Tests.Whole.{no_files, worker, cluster, v6_info, asked}

abbrev plugged : Config
plugged = record cluster {
  general = record (cluster.general) { cni_plugin = some point_to_point_plugin };
}

down_NonePanics :
    NonePanics (down_steps memory no_addresses (node_of (str "b") plugged) plugged) no_files
unfolding stop_kubernetes cleanup_for_plugin do_exec_command cleanup_plugin
    remove_routes_for_pod_network do_route_ops_on_nodes node_of str eq_str
down_NonePanics = (λ e. cc, (λ e. cc, tt))

tear_down-made_example :
    tear_down memory no_addresses (str "b") plugged no_files
    ≡ (ok tt, made (down_steps memory no_addresses (node_of (str "b") plugged) plugged) no_files)
tear_down-made_example =
    tear_down-made memory no_addresses (str "b") plugged no_files down_NonePanics

build_node_cidr_distinct_example :
    build_node_cidr v6_info (pos 2) ≢ build_node_cidr v6_info (pos 10)
build_node_cidr_distinct_example =
    build_node_cidr_distinct v6_info (pos 2) (pos 10) (omega arith) (omega arith) (λ e. cc)

build_node_info-UniqueIps_example : UniqueIps (build_node_info config)
build_node_info-UniqueIps_example =
    build_node_info-UniqueIps config (omega arith) ((λ e. cc, tt), (tt, tt))

-- A system whose `openssl` and `kubeadm` write a hash and a token.
abbrev hash : Bytes
hash = str "0123456789abcdef0123456789abcdef0123456789abcdef0123456789abcdef"

abbrev token : Bytes
token = str "abcdef.0123456789abcdef"

abbrev answers : Bytes → Ran
answers cmd =
    if eq_str cmd (str "openssl") then succeeded (str "SHA256= " ++ hash) else succeeded token

abbrev yaml_path : Bytes
yaml_path = str "config.yaml"

abbrev yaml_files : Store
yaml_files f = if eq_str f yaml_path then some (str "general:\n") else none

abbrev led : Config
led = record config { topology = (str "b", record worker { is_master = true }) ∷ [] }

yaml_IsApart :
    IsApart
      (memory_with answers)
      contents
      (led.mgmt.info0.prefix)
      ((node_of (str "b") led).id)
      (led.general.work_area)
      yaml_path
unfolding str join_path split join
yaml_IsApart = record {
  remove_all_keeps = record { kept_part = λ s. refl };
  mkdir_all_keeps = record { kept_part = λ s. refl };
  commands_keep = (λ w. refl, (λ w. refl, (λ w. refl, (λ w. refl, (λ w. refl, (λ w. refl, tt))))));
  not_x509 = λ e. cc;
  chmod_keeps = λ f g mode. record { kept_part = λ s. refl };
}

initialized : (initialize (memory_with answers) (str "b") led yaml_path yaml_files).0 ≡ ok tt
unfolding initialize do_exec_command extract_digest extract_token validate_token
    validate_token_cert_hash split join join_path str eq_str node_of trim_left trim_right
    create_cert_key_area create_key_for_ca create_certificate_for_ca create_x509_cert_for_ca
    create_rsa_for_ca create_digest_for_ca create_token update_config_yaml open_permissions
    get_file_contents save_file_contents
initialized = refl

initialize-HasCredentials_example :
    HasCredentials
      (memory_with answers)
      contents
      yaml_path
      (some (str "general:\n"))
      (initialize (memory_with answers) (str "b") led yaml_path yaml_files).1
unfolding str eq_str node_of
initialize-HasCredentials_example =
    initialize-HasCredentials (memory_with answers) contents (memory_with-laws answers) (str "b")
      led yaml_path yaml_files yaml_IsApart refl initialized

abbrev unmarshal : Bytes → Result Config
unmarshal s = ok asked
