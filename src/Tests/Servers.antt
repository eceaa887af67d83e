-- ===== src/Tests/Servers.antt =====
-- The theorems on the servers, on copies and on networks, at concrete data.
use lazyjack.Base.{
  ◌≤◌, ◌/◌, ◌-◌, All, show_hex, show_int, lt_str, trim_right, trim_left, if◌then◌else◌, Bytes, List,
  [], ◌∷◌, ◌++◌, ◌≡◌, ◌≢◌, refl, ap, true, false, Option, none, some, Option-cases, inl, inr, arith,
  pos, str, eq_str, contains, has_prefix, ok,
}
use lazyjack.Base.Split.{split, join, text_lines}
use lazyjack.Net.{Net}
use lazyjack.World.{Os, Link, Ran, succeeded, failed}
use lazyjack.NetMgr.{build_route, add_route_using_support_net_interface}
use lazyjack.Hypervisor.Laws.{HypervisorLaws}
use lazyjack.NetMgr.Frame.{IsOutside}
use lazyjack.World.Path.{join_path}
use lazyjack.Config.{
  Node, ResourceState, running, exists, not_present, cert_area, dns64_name, dns64_volume,
  nat64_name, etc_hosts_file,
}
use lazyjack.Prepare.{prepare_servers}
use lazyjack.Prepare.Servers.{
  prepare_nat64_server, ensure_nat64_server, ensure_route_to_nat64, create_support_network,
  prepare_dns64_server, ensure_dns64_server, create_config_for_dns64,
  remove_ipv4_address_on_dns64_server, add_route_for_dns64_network,
}
use lazyjack.Prepare.Servers.Inet.{parse_ipv4_address}
use lazyjack.Docker.{
  docker, resource_state, get_interface_config, delete_v4_address, add_v6_route, delete_container,
  run_container, create_network, create_volume, delete_volume, get_volume_mount_point, do_command,
}
use lazyjack.Docker.Laws.{Inspected, DockerLaws, docker-HypervisorLaws}
use lazyjack.Docker.Args.{
  build_resource_state_args, build_run_args_for_dns64, build_run_args_for_nat64,
  build_delete_container_args, build_delete_volume_args, build_get_interface_args,
  build_v4_addr_del_args, build_add_route_args, build_create_net_args_for, build_create_volume_args,
  build_inspect_volume_args,
}
use lazyjack.Prepare.Etc.{hosts_prefix, build_node_info, add_host_entries}
use lazyjack.Prepare.Etc.Listed.{host_of, add_host_entries-Listed}
use lazyjack.EtcFiles.Hosts.{update_hosts_info}
use lazyjack.EtcFiles.Hosts.Entries.{Listed}
use lazyjack.EtcFiles.Hosts.Restore.{IsGood}
use lazyjack.EtcFiles.Hosts.Lists.{update_hosts_info-Listed}
use lazyjack.Prepare.Servers.Running.{RunsServers, prepare_servers-RunsServers}
use lazyjack.Cleanup.{cleanup_dns64_server, remove_container}
use lazyjack.Cleanup.Gone.{cleanup_dns64_server-gone}
use lazyjack.Up.{copy_file, place_certificate_and_key_for_ca}
use lazyjack.Up.Copied.{CopyLaws, place_certificate_and_key_for_ca-copied}
use lazyjack.Address.{build_pod_subnet_prefix}
use lazyjack.Address.Distinct.{build_pod_subnet_prefix_distinct}
use lazyjack.Validate.Prefix.{make_prefix_from_network, count_of, zeros}
use lazyjack.Validate.Prefix.Parts.{IsWritten, parts_of, make_prefix_from_network-split}
use lazyjack.Tests.Memory.{
  Store, memory, contents, set, set-same, set-other, done, copy, memory-laws,
}
use lazyjack.Tests.Etc.{
  config, differ, files, hosts_text, hosts_nodes, hosts_Clean, hosts_IsGood, hosts_paths,
  hosts_there, prepared, prepared_ok, run-ok,
}
use lazyjack.Tests.Whole.{worker}

-- A resource is there if the store has an entry for it, and runs if the entry is not empty.
abbrev state_of : Option Bytes → ResourceState
state_of none = not_present
state_of (some []) = exists
state_of (some (b ∷ c)) = running

abbrev state : Bytes → Store → ResourceState
state r w = state_of (w r)

abbrev inspected : Option Bytes → Ran
inspected none = failed [] []
inspected (some []) = succeeded (str "\"Running\": false")
inspected (some (b ∷ c)) = succeeded (str "\"Running\": true")

abbrev done_with : Store → Ran × Store
done_with w = (succeeded [], w)

-- The docker commands, by the number of their arguments.
abbrev simulated : List Bytes → Store → Ran × Store
simulated (cmd ∷ r ∷ []) w = (inspected (w r), w)
simulated (cmd ∷ option ∷ name ∷ []) w =
    if eq_str cmd (str "rm") then done_with (set name none w) else done_with (set name (some []) w)
simulated (cmd ∷ what ∷ option ∷ name ∷ []) w =
    if eq_str what (str "rm") then done_with (set name none w) else done_with w
simulated (cmd ∷ detached ∷ option ∷ name ∷ arg ∷ args) w =
    if eq_str cmd (str "run") then done_with (set name (some (1 ∷ [])) w) else done_with w
simulated args w = done_with w

abbrev support_link : Link
support_link = record { link_name = str "br"; link_index = 7 }

-- A system with docker and one link.
abbrev with_docker : Os
with_docker = record memory {
  output = λ cmd args w. simulated args w;
  link_list = done (support_link ∷ []);
  addr_list = λ l f. done (record { addr_ip = []; addr_ones = 0 } ∷ []);
}

-- Every text is an address, and every network holds it.
abbrev everywhere : Net
everywhere = record {
  parse_cidr = λ s. some (s, record { ip = s; ones = 0 });
  parse_ip = λ s. some s;
  ip_string = λ a. a;
  is_to4 = λ a. true;
  net_contains = λ n a. true;
}

inspected-Inspected : (x : Option Bytes) → Inspected (inspected x) (state_of x)
unfolding contains has_prefix str
inspected-Inspected none = tt
inspected-Inspected (some []) = refl
inspected-Inspected (some (b ∷ c)) = refl

state-set : (r : Bytes) (v : Option Bytes) (w : Store) → state r (set r v w) ≡ state_of v
state-set r v w = ap state_of (set-same r v w)

state-other : (r q : Bytes) (v : Option Bytes) (w : Store) → q ≢ r → state q (set r v w) ≡ state q w
state-other r q v w ne = ap state_of (set-other r q v w ne)

dns64-ne-nat64 : dns64_name ≢ nat64_name
unfolding str eq_str
dns64-ne-nat64 = differ _ _ refl

dns64-ne-volume : dns64_name ≢ dns64_volume
unfolding str eq_str
dns64-ne-volume = differ _ _ refl

with_docker-DockerLaws : DockerLaws with_docker state
unfolding build_resource_state_args build_run_args_for_dns64 build_run_args_for_nat64
    build_delete_container_args build_delete_volume_args build_get_interface_args
    build_v4_addr_del_args build_add_route_args str eq_str
with_docker-DockerLaws = record {
  inspect_tells = λ r w. inspected-Inspected (w r);
  inspect_keeps = λ r q w. refl;
  run_dns64 = λ c w e. state-set dns64_name (some (1 ∷ [])) w;
  run_nat64 = λ c w e. state-set nat64_name (some (1 ∷ [])) w;
  run_nat64_keeps = λ c w. state-other nat64_name dns64_name (some (1 ∷ [])) w dns64-ne-nat64;
  rm_dns64 = λ w e. state-set dns64_name none w;
  rm_nat64_keeps = λ w. state-other nat64_name dns64_name none w dns64-ne-nat64;
  volume_rm = λ w e. state-set dns64_volume none w;
  volume_rm_keeps = λ w. state-other dns64_volume dns64_name none w dns64-ne-volume;
  exec_list_keeps = λ name w. refl;
  exec_del_keeps = λ ip w. refl;
  exec_route_keeps = λ dest via w. refl;
}

docker-HypervisorLaws_example : HypervisorLaws (docker with_docker) state
docker-HypervisorLaws_example = docker-HypervisorLaws with_docker state with_docker-DockerLaws

-- The same laws, for the other witnesses.
docker_laws : HypervisorLaws (docker with_docker) state
docker_laws = docker-HypervisorLaws with_docker state with_docker-DockerLaws

outside : (q : Bytes) → IsOutside with_docker (state q)
outside q = record {
  parse_keeps = λ s. record { kept_part = λ w. refl };
  links_keep = record { kept_part = λ w. refl };
  addrs_keep = λ l f. record { kept_part = λ w. refl };
  route_keeps = λ r. record { kept_part = λ w. refl };
}

-- A node with both roles, whose NAT64 container is stopped and whose DNS64 container is not there.
abbrev both_servers : Node
both_servers = record worker { is_dns64_server = true; is_nat64_server = true }

abbrev nat64_stopped : Store
nat64_stopped r = if eq_str r nat64_name then some [] else none

servers_ok :
    (prepare_servers with_docker everywhere
      (docker with_docker)
      both_servers
      config
      nat64_stopped).0
    ≡ ok tt
unfolding prepare_servers create_support_network prepare_dns64_server ensure_dns64_server
    create_config_for_dns64 remove_ipv4_address_on_dns64_server add_route_for_dns64_network
    prepare_nat64_server ensure_nat64_server ensure_route_to_nat64
    add_route_using_support_net_interface build_route resource_state get_interface_config
    delete_v4_address add_v6_route delete_container run_container create_network create_volume
    delete_volume get_volume_mount_point do_command build_resource_state_args
    build_run_args_for_dns64 build_run_args_for_nat64 build_delete_container_args
    build_delete_volume_args build_get_interface_args build_v4_addr_del_args build_add_route_args
    build_create_net_args_for build_create_volume_args build_inspect_volume_args str eq_str
    join_path split join has_prefix contains parse_ipv4_address trim_left trim_right
servers_ok = refl

prepare_servers-RunsServers_example :
    RunsServers state both_servers
      (prepare_servers with_docker everywhere
        (docker with_docker)
        both_servers
        config
        nat64_stopped).1
prepare_servers-RunsServers_example =
    prepare_servers-RunsServers with_docker (docker with_docker) state docker_laws everywhere
      outside both_servers config nat64_stopped servers_ok

abbrev busy : Store
busy r = some (1 ∷ [])

cleaned_up : (cleanup_dns64_server (docker with_docker) busy).0 ≡ ok tt
unfolding cleanup_dns64_server remove_container resource_state delete_container delete_volume
    do_command build_resource_state_args build_delete_container_args build_delete_volume_args str
    eq_str contains has_prefix
cleaned_up = refl

cleanup_dns64_server-gone_example :
    (state dns64_name (cleanup_dns64_server (docker with_docker) busy).1 ≡ not_present)
    × (state dns64_volume (cleanup_dns64_server (docker with_docker) busy).1 ≡ not_present)
cleanup_dns64_server-gone_example =
    cleanup_dns64_server-gone (docker with_docker) state docker_laws busy cleaned_up

abbrev pod_prefix : Bytes
pod_prefix = str "fd00:40:0:0:"

subnet_of_2 :
    build_pod_subnet_prefix (str "ipv6") pod_prefix 72 (pos 2)
    ≡ ok (pod_prefix ++ str "200" ++ str "::", [])
unfolding build_pod_subnet_prefix str eq_str show_hex
subnet_of_2 = refl

subnet_of_10 :
    build_pod_subnet_prefix (str "ipv6") pod_prefix 72 (pos 10)
    ≡ ok (pod_prefix ++ str "a00" ++ str "::", [])
unfolding build_pod_subnet_prefix str eq_str show_hex
subnet_of_10 = refl

build_pod_subnet_prefix_distinct_example :
    (pod_prefix ++ str "200" ++ str "::") ++ [] ≢ (pod_prefix ++ str "a00" ++ str "::") ++ []
build_pod_subnet_prefix_distinct_example =
    build_pod_subnet_prefix_distinct (str "ipv6") pod_prefix 72 2 10 _ _ [] [] (omega arith)
      (omega arith) (omega arith) subnet_of_2 subnet_of_10

few_parts : count_of (parts_of (str "fd00:40::")) ≤ 72 / 16
unfolding split str trim_right
few_parts = omega arith

parts_IsWritten : All IsWritten (parts_of (str "fd00:40::"))
unfolding split str trim_right
parts_IsWritten = (λ e. cc, (λ e. cc, tt))

make_prefix_from_network-split_example :
    (split b':' (make_prefix_from_network (str "fd00:40::") 72)
      ≡ (parts_of (str "fd00:40::") ++ zeros (72 / 16 - count_of (parts_of (str "fd00:40::"))))
        ++ [] ∷ [])
    × (count_of
          (parts_of (str "fd00:40::") ++ zeros (72 / 16 - count_of (parts_of (str "fd00:40::"))))
        ≡ 72 / 16)
    × All IsWritten
        (parts_of (str "fd00:40::") ++ zeros (72 / 16 - count_of (parts_of (str "fd00:40::"))))
make_prefix_from_network-split_example =
    make_prefix_from_network-split (str "fd00:40::") 72 few_parts parts_IsWritten

copied :
    (d f : Bytes) (w : Store)
    → w d ≡ some []
    → (memory.copy_into d f w).0 ≡ ok tt
    → (memory.copy_into d f w).1 d ≡ w f
copied d f w h e = elim (Option-cases (w f)) [
  | inl n ↦ cc (rw (copy, n) at e)
  | inr (c, n) ↦ rw (copy, n) (set-same d (some c) w)
]

not_copied : (d f g : Bytes) (w : Store) → g ≢ d → (memory.copy_into d f w).1 g ≡ w g
not_copied d f g w ne = elim (Option-cases (w f)) [
  | inl n ↦ rw (copy, n) refl
  | inr (c, n) ↦ rw (copy, n) (set-other d g (some c) w ne)
]

memory-CopyLaws : CopyLaws memory contents
memory-CopyLaws = record {
  open_keeps = λ f g. record { kept_part = λ w. refl };
  create_empty = λ f w e. set-same f (some []) w;
  create_keeps = λ f g ne. record { kept_part = λ w. set-other f g (some []) w ne };
  copy_content = copied;
  copy_keeps = λ d s g ne. record { kept_part = λ w. not_copied d s g w ne };
  sync_keeps = λ f g. record { kept_part = λ w. refl };
  close_keeps = λ f g. record { kept_part = λ w. refl };
  mkdir_keeps = λ f g. record { kept_part = λ w. refl };
}

abbrev certificates : Store
certificates f = some (str "text")

placed : (place_certificate_and_key_for_ca memory (str "/tmp") (str "/k") certificates).0 ≡ ok tt
unfolding place_certificate_and_key_for_ca copy_file str eq_str join_path split join
placed = refl

place_certificate_and_key_for_ca-copied_example :
    (contents
        (join_path (str "/k") (str "ca.crt"))
        (place_certificate_and_key_for_ca memory (str "/tmp") (str "/k") certificates).1
      ≡ contents (join_path (join_path (str "/tmp") cert_area) (str "ca.crt")) certificates)
    × (contents
          (join_path (str "/k") (str "ca.key"))
          (place_certificate_and_key_for_ca memory (str "/tmp") (str "/k") certificates).1
        ≡ contents (join_path (join_path (str "/tmp") cert_area) (str "ca.key")) certificates)
unfolding str join_path split join eq_str
place_certificate_and_key_for_ca-copied_example =
    place_certificate_and_key_for_ca-copied memory contents memory-CopyLaws (str "/tmp") (str "/k")
      certificates (differ _ _ refl) (differ _ _ refl) (differ _ _ refl) (differ _ _ refl) placed

topology_IsGood : All (λ x. IsGood (host_of config x)) config.topology
unfolding has_prefix str hosts_prefix eq_str show_int
topology_IsGood = (
  record { plain_ip = refl; one_line = omega arith },
  (record { plain_ip = refl; one_line = omega arith }, tt),
)

add_host_entries-Listed_example :
    (new : Bytes) × (contents (join_path config.general.etc_area etc_hosts_file) prepared
      ≡ some new)
    × All
        (λ x. Listed (text_lines hosts_text) (text_lines new) x.0 (host_of config x).ip)
        config.topology
add_host_entries-Listed_example =
    add_host_entries-Listed memory contents memory-laws config hosts_text files prepared hosts_paths
      hosts_there hosts_Clean topology_IsGood
      (run-ok (add_host_entries memory config files) prepared_ok)

nodes_unseen : All (λ n. n.seen ≡ false) hosts_nodes
unfolding build_node_info str lt_str eq_str show_int
nodes_unseen = (refl, (refl, tt))

update_hosts_info-Listed_example :
    All
      (λ n.
        Listed
          (text_lines hosts_text)
          (text_lines (update_hosts_info hosts_text hosts_nodes))
          n.name
          n.ip)
      hosts_nodes
update_hosts_info-Listed_example =
    update_hosts_info-Listed hosts_text hosts_nodes hosts_Clean nodes_unseen hosts_IsGood
