-- ===== src/Tests/Etc.antt =====
-- Preparing and cleaning up the files of /etc, at concrete data.
use lazyjack.Base.{
  ℕ, Bytes, List, [], ◌∷◌, ◌++◌, ◌≡◌, ◌≢◌, ◌⊎◌, refl, ap, true, false, none, some, arith, pos, All,
  str, eq_str, eq_str_iff, has_prefix, has_suffix, trim_right, is_newline, Result, ok, Done, map,
  lt_str, show_int,
}
use lazyjack.Base.Split.{text_lines, Lacks, join, split}
use lazyjack.World.Path.{join_path}
use lazyjack.Config.{Config, Node, etc_hosts_file, etc_hosts_backup_file, etc_resolv_conf_file}
use lazyjack.Config.{etc_resolv_conf_backup_file, NetInfo}
use lazyjack.EtcFiles.Edit.{revert_config_info, Clean}
use lazyjack.EtcFiles.Hosts.{update_hosts_info, NodeInfo}
use lazyjack.EtcFiles.Hosts.Restore.{IsGood, revert_config_info-update_hosts_info}
use lazyjack.EtcFiles.Resolv.{update_resolv_conf_info}
use lazyjack.EtcFiles.Resolv.Restore.{revert_config_info-update_resolv_conf_info}
use lazyjack.EtcFiles.Resolv.Serves.{Serves, nameservers, update_resolv_conf_info-Serves}
use lazyjack.Files.{get_file_contents, save_file_contents}
use lazyjack.Files.Laws.{
  save_file_contents-kept, save_file_contents-saved, save_file_contents-others,
}
use lazyjack.Prepare.Etc.{
  node_info, hosts_prefix, build_node_info, add_host_entries, calc_name_server,
  add_resolv_conf_entry,
}
use lazyjack.Prepare.Etc.Sorted.{IsSorted, build_node_info_lem}
use lazyjack.Cleanup.{revert_etc_area_file}
use lazyjack.Cleanup.Restore.{
  revert_etc_area_file-add_host_entries, revert_etc_area_file-add_resolv_conf_entry,
}
use lazyjack.Tests.Memory.{Store, memory, contents, memory-laws}
use mathlib.Core.List.{Perm}

abbrev pub node : Bytes → ℕ → Bytes → Node
node name id modes = record {
  interface = str "eth1";
  id = pos id;
  operating_modes = modes;
  name = name;
  is_master = false;
  is_minion = false;
  is_dns64_server = false;
  is_nat64_server = false;
}

abbrev pub info : Bytes → NetInfo
info prefix = record { prefix = prefix; size = 24; mode = str "ipv4" }

abbrev pub config : Config
config = record {
  plugin = [];
  general = record {
    mode = str "ipv4";
    plugin = [];
    token = [];
    token_cert_hash = [];
    work_area = str "/tmp";
    cni_plugin = none;
    systemd_area = str "/s";
    etc_area = str "/etc";
    cni_area = str "/c";
    k8s_cert_area = str "/k";
    kube_adm_version = [];
    k8s_version = [];
    insecure = false;
  };
  topology = (str "b", node [] 2 (str "minion")) ∷ (str "a", node [] 3 (str "master")) ∷ [];
  support = record { cidr = []; info = info []; v4cidr = [] };
  mgmt = record { cidr = []; cidr2 = []; info0 = info (str "10.0.0."); info1 = info [] };
  pod = record { cidr = []; cidr2 = []; info0 = info []; info1 = info []; mtu = pos 1500 };
  service = record { cidr = []; info = info (str "10.9.0.") };
  nat64 = record { v4_mapping_cidr = []; v4_mapping_ip = []; server_ip = [] };
  dns64 = record {
    remote_v4_server = [];
    cidr = [];
    cidr_prefix = [];
    server_ip = [];
    allow_ipv6_use = false;
    allow_aaaa_use = false;
  };
}

-- Lines that the edits replace, keep and add.
abbrev pub hosts_text : Bytes
hosts_text = str "1.1.1.1 a\n\n"

abbrev pub resolv_text : Bytes
resolv_text = str "nameserver 8.8.8.8\nsearch x\n"

abbrev hosts_path : Bytes
hosts_path = str "/etc/hosts"

abbrev resolv_path : Bytes
resolv_path = str "/etc/resolv.conf"

abbrev pub files : Store
files f = elim (eq_str f hosts_path) [
  | true ↦ some hosts_text
  | false ↦ elim (eq_str f resolv_path) [ true ↦ some resolv_text | false ↦ none ]
]

abbrev pub hosts_nodes : List NodeInfo
hosts_nodes = build_node_info config

hosts_nodes_test :
    map (λ n. n.ip ++ str " " ++ n.name) hosts_nodes ≡ str "10.0.0.3 a" ∷ str "10.0.0.2 b" ∷ []
unfolding build_node_info str lt_str eq_str show_int
hosts_nodes_test = refl

build_node_info_lem_example :
    IsSorted (build_node_info config)
    × Perm (build_node_info config) (map (node_info (hosts_prefix config)) config.topology)
build_node_info_lem_example = build_node_info_lem config

-- A run, by its result alone.
pub run-ok : {A : Type 0} (x : Result Done × A) → x.0 ≡ ok tt → x ≡ (ok tt, x.1)
run-ok x h = ap (λ r. (r, x.1)) h

abbrev pub prepared : Store
prepared = (add_host_entries memory config files).1

abbrev cleaned : Store
cleaned = (revert_etc_area_file memory config etc_hosts_file etc_hosts_backup_file prepared).1

pub hosts_IsGood : All IsGood hosts_nodes
unfolding build_node_info str lt_str eq_str show_int has_prefix
hosts_IsGood = (
  record { plain_ip = refl; one_line = omega arith },
  (record { plain_ip = refl; one_line = omega arith }, tt),
)

pub hosts_Clean : Clean hosts_text
unfolding text_lines str has_prefix has_suffix
hosts_Clean = ((refl, refl), tt)

resolv_Clean : Clean resolv_text
unfolding text_lines str has_prefix has_suffix
resolv_Clean = ((refl, refl), ((refl, refl), tt))

pub differ : (s t : Bytes) → eq_str s t ≡ false → s ≢ t
differ s t h = λ e. cc ((eq_str_iff s t).1 e, h)

pub hosts_paths :
    join_path config.general.etc_area etc_hosts_file
    ≢ join_path config.general.etc_area etc_hosts_backup_file
unfolding join_path str eq_str join split
hosts_paths = differ _ _ refl

pub hosts_there :
    contents (join_path config.general.etc_area etc_hosts_file) files ≡ some hosts_text
unfolding join_path str eq_str join split
hosts_there = refl

pub prepared_ok : (add_host_entries memory config files).0 ≡ ok tt
unfolding add_host_entries join_path str eq_str get_file_contents join split save_file_contents
prepared_ok = refl

cleaned_ok :
    (revert_etc_area_file memory config etc_hosts_file etc_hosts_backup_file prepared).0 ≡ ok tt
unfolding revert_etc_area_file add_host_entries join_path str eq_str get_file_contents join split
    save_file_contents
cleaned_ok = refl

revert_etc_area_file-add_host_entries_example :
    contents (join_path config.general.etc_area etc_hosts_file) cleaned
    ≡ some (trim_right is_newline hosts_text ++ 10 ∷ [])
revert_etc_area_file-add_host_entries_example =
    revert_etc_area_file-add_host_entries memory contents memory-laws config hosts_text files
      prepared cleaned hosts_paths hosts_there hosts_Clean hosts_IsGood
      (run-ok (add_host_entries memory config files) prepared_ok)
      (run-ok (revert_etc_area_file memory config etc_hosts_file etc_hosts_backup_file prepared)
        cleaned_ok)

revert_config_info-update_hosts_info_example :
    revert_config_info (update_hosts_info hosts_text hosts_nodes)
    ≡ trim_right is_newline hosts_text ++ 10 ∷ []
revert_config_info-update_hosts_info_example =
    revert_config_info-update_hosts_info hosts_text hosts_nodes hosts_Clean hosts_IsGood

abbrev server : Bytes
server = str "10.0.0.3"

server-Lacks : Lacks 10 server
unfolding str
server-Lacks = omega arith

revert_config_info-update_resolv_conf_info_example :
    revert_config_info (update_resolv_conf_info resolv_text server)
    ≡ trim_right is_newline resolv_text ++ 10 ∷ []
revert_config_info-update_resolv_conf_info_example =
    revert_config_info-update_resolv_conf_info resolv_text server resolv_Clean server-Lacks

update_resolv_conf_info-Serves_example :
    Serves server
      (nameservers (text_lines resolv_text))
      (nameservers (text_lines (update_resolv_conf_info resolv_text server)))
update_resolv_conf_info-Serves_example =
    update_resolv_conf_info-Serves resolv_text server resolv_Clean server-Lacks

abbrev master : Node
master = node (str "a") 3 (str "master")

abbrev resolv_prepared : Store
resolv_prepared = (add_resolv_conf_entry memory master config files).1

abbrev resolv_cleaned : Store
resolv_cleaned =
    (revert_etc_area_file memory config etc_resolv_conf_file etc_resolv_conf_backup_file
      resolv_prepared).1

resolv_paths :
    join_path config.general.etc_area etc_resolv_conf_file
    ≢ join_path config.general.etc_area etc_resolv_conf_backup_file
unfolding join_path str eq_str join split
resolv_paths = differ _ _ refl

resolv_prepared_ok : (add_resolv_conf_entry memory master config files).0 ≡ ok tt
unfolding add_resolv_conf_entry join_path str eq_str get_file_contents join split save_file_contents
resolv_prepared_ok = refl

resolv_cleaned_ok :
    (revert_etc_area_file memory config etc_resolv_conf_file etc_resolv_conf_backup_file
      resolv_prepared).0
    ≡ ok tt
unfolding revert_etc_area_file add_resolv_conf_entry join_path str eq_str get_file_contents join
    split save_file_contents
resolv_cleaned_ok = refl

pub resolv_there :
    contents (join_path config.general.etc_area etc_resolv_conf_file) files ≡ some resolv_text
unfolding join_path str eq_str join split
resolv_there = refl

calc_name_server-Lacks : Lacks 10 (calc_name_server master config)
unfolding calc_name_server str eq_str show_int
calc_name_server-Lacks = omega arith

revert_etc_area_file-add_resolv_conf_entry_example :
    contents (join_path config.general.etc_area etc_resolv_conf_file) resolv_cleaned
    ≡ some (trim_right is_newline resolv_text ++ 10 ∷ [])
revert_etc_area_file-add_resolv_conf_entry_example =
    revert_etc_area_file-add_resolv_conf_entry memory contents memory-laws master config resolv_text
      files resolv_prepared resolv_cleaned resolv_paths resolv_there resolv_Clean
      calc_name_server-Lacks
      (run-ok (add_resolv_conf_entry memory master config files) resolv_prepared_ok)
      (run-ok
        (revert_etc_area_file memory config etc_resolv_conf_file etc_resolv_conf_backup_file
          resolv_prepared)
        resolv_cleaned_ok)

save_paths : hosts_path ≢ resolv_path
unfolding str eq_str
save_paths = differ _ _ refl

there : contents hosts_path files ≡ some hosts_text
unfolding str eq_str
there = refl

saved_ok : (save_file_contents memory (str "new") hosts_path resolv_path files).0 ≡ ok tt
unfolding save_file_contents str eq_str
saved_ok = refl

save_file_contents-kept_example :
    (contents hosts_path (save_file_contents memory (str "new") hosts_path resolv_path files).1
      ≡ some hosts_text)
    ⊎ (contents resolv_path (save_file_contents memory (str "new") hosts_path resolv_path files).1
        ≡ some hosts_text)
save_file_contents-kept_example =
    save_file_contents-kept memory contents memory-laws (str "new") hosts_path resolv_path files
      hosts_text save_paths there

save_file_contents-saved_example :
    (contents hosts_path (save_file_contents memory (str "new") hosts_path resolv_path files).1
      ≡ some (str "new"))
    × (contents resolv_path (save_file_contents memory (str "new") hosts_path resolv_path files).1
        ≡ (elim (contents hosts_path files) [
          | none ↦ contents resolv_path files
          | some old ↦ some old
        ]))
save_file_contents-saved_example =
    save_file_contents-saved memory contents memory-laws (str "new") hosts_path resolv_path files
      save_paths saved_ok

other_path : str "x" ≢ hosts_path
unfolding str eq_str
other_path = differ _ _ refl

other_backup : str "x" ≢ resolv_path
unfolding str eq_str
other_backup = differ _ _ refl

save_file_contents-others_example :
    contents (str "x") (save_file_contents memory (str "new") hosts_path resolv_path files).1
    ≡ contents (str "x") files
save_file_contents-others_example =
    save_file_contents-others memory contents memory-laws (str "new") hosts_path resolv_path
      (str "x") files other_path other_backup
