-- ===== src/Config.antt =====
-- config.go: the configuration that the YAML file fills and validation completes, and the
-- constants. A Go map from node names is an association list; its order is the order in which
-- `range` visits the map. A network manager and a hypervisor are reached through `Os`, so the
-- handles `NetMgr` and `Hyper` have no field here.
pub mod Parse
pub mod Writer
use lazyjack.Base.{ℕ, Bytes, Bool, false, ℤ, pos, List, [], ◌∷◌, Option, none, some, str, eq_str}
use lazyjack.Base.{if◌then◌else◌}

pub record NetInfo : Type 0 where
  pub prefix : Bytes
  pub size : ℕ
  pub mode : Bytes

pub record SupportNetwork : Type 0 where
  pub cidr : Bytes
  pub info : NetInfo
  pub v4cidr : Bytes

-- The array `Info [2]NetInfo` is the two fields `info0` and `info1`.
pub record ManagementNetwork : Type 0 where
  pub cidr : Bytes
  pub cidr2 : Bytes
  pub info0 : NetInfo
  pub info1 : NetInfo

pub record PodNetwork : Type 0 where
  pub cidr : Bytes
  pub cidr2 : Bytes
  pub info0 : NetInfo
  pub info1 : NetInfo
  pub mtu : ℤ

pub record ServiceNetwork : Type 0 where
  pub cidr : Bytes
  pub info : NetInfo

pub record Dns64Config : Type 0 where
  pub remote_v4_server : Bytes
  pub cidr : Bytes
  pub cidr_prefix : Bytes
  pub server_ip : Bytes
  pub allow_ipv6_use : Bool
  pub allow_aaaa_use : Bool

pub record Nat64Config : Type 0 where
  pub v4_mapping_cidr : Bytes
  pub v4_mapping_ip : Bytes
  pub server_ip : Bytes

pub record Node : Type 0 where
  pub interface : Bytes
  pub id : ℤ
  pub operating_modes : Bytes
  pub name : Bytes
  pub is_master : Bool
  pub is_minion : Bool
  pub is_dns64_server : Bool
  pub is_nat64_server : Bool

-- The types that implement `PluginAPI`. Each holds the pointer to the configuration.
pub data CniPlugin : Type 0 where
  bridge_plugin point_to_point_plugin : CniPlugin

-- `cni_plugin` is `none` for the nil interface.
pub record GeneralSettings : Type 0 where
  pub mode : Bytes
  pub plugin : Bytes
  pub token : Bytes
  pub token_cert_hash : Bytes
  pub work_area : Bytes
  pub cni_plugin : Option CniPlugin
  pub systemd_area : Bytes
  pub etc_area : Bytes
  pub cni_area : Bytes
  pub k8s_cert_area : Bytes
  pub kube_adm_version : Bytes
  pub k8s_version : Bytes
  pub insecure : Bool

pub record Config : Type 0 where
  pub plugin : Bytes
  pub general : GeneralSettings
  pub topology : List (Bytes × Node)
  pub support : SupportNetwork
  pub mgmt : ManagementNetwork
  pub pod : PodNetwork
  pub service : ServiceNetwork
  pub nat64 : Nat64Config
  pub dns64 : Dns64Config

abbrev pub default_plugin : Bytes
default_plugin = str "bridge"

abbrev pub support_net_name : Bytes
support_net_name = str "support_net"

pub data ResourceState : Type 0 where
  not_present running exists : ResourceState

abbrev pub default_work_area : Bytes
default_work_area = str "/tmp/lazyjack"

abbrev pub cert_area : Bytes
cert_area = str "certs"

abbrev pub kubernetes_cert_area : Bytes
kubernetes_cert_area = str "/etc/kubernetes/pki"

abbrev pub dns64_name : Bytes
dns64_name = str "bind9"

abbrev pub dns64_volume : Bytes
dns64_volume = str "volume-bind9"

abbrev pub dns64_named_conf : Bytes
dns64_named_conf = str "named.conf"

abbrev pub nat64_name : Bytes
nat64_name = str "tayga"

abbrev pub kubelet_systemd_area : Bytes
kubelet_systemd_area = str "/etc/systemd/system/kubelet.service.d"

abbrev pub kubelet_drop_in_file : Bytes
kubelet_drop_in_file = str "20-extra-dns-args.conf"

abbrev pub cni_conf_area : Bytes
cni_conf_area = str "/etc/cni/net.d"

abbrev pub cni_conf_file : Bytes
cni_conf_file = str "cni.conf"

abbrev pub default_etc_area : Bytes
default_etc_area = str "/etc"

abbrev pub etc_hosts_file : Bytes
etc_hosts_file = str "hosts"

abbrev pub etc_hosts_backup_file : Bytes
etc_hosts_backup_file = str "hosts.bak"

abbrev pub etc_resolv_conf_file : Bytes
etc_resolv_conf_file = str "resolv.conf"

abbrev pub etc_resolv_conf_backup_file : Bytes
etc_resolv_conf_backup_file = str "resolv.conf.bak"

abbrev pub kube_adm_conf_file : Bytes
kube_adm_conf_file = str "kubeadm.conf"

abbrev pub default_token : Bytes
default_token = str "abcdef.abcdefghijklmnop"

abbrev pub minimum_pod_mtu : ℕ
minimum_pod_mtu = 1280

abbrev pub default_pod_mtu : ℕ
default_pod_mtu = 1500

abbrev pub ipv6_net_mode : Bytes
ipv6_net_mode = str "ipv6"

abbrev pub default_net_mode : Bytes
default_net_mode = ipv6_net_mode

abbrev pub ipv4_net_mode : Bytes
ipv4_net_mode = str "ipv4"

abbrev pub dual_stack_net_mode : Bytes
dual_stack_net_mode = str "dual-stack"

-- `c.Topology[name]` for reading: a missing key gives the zero `Node`.
abbrev pub zero_node : Node
zero_node = record {
  interface = [];
  id = pos 0;
  operating_modes = [];
  name = [];
  is_master = false;
  is_minion = false;
  is_dns64_server = false;
  is_nat64_server = false;
}

module _ {V : Type 0} where
  unfoldable pub find : Bytes → List (Bytes × V) → Option V
  find k [] = none
  find k ((j, v) ∷ m) = if eq_str j k then some v else find k m

  -- `m[k] = v`
  unfoldable pub put : Bytes → V → List (Bytes × V) → List (Bytes × V)
  put k v [] = (k, v) ∷ []
  put k v ((j, w) ∷ m) = if eq_str j k then (j, v) ∷ m else (j, w) ∷ put k v m

abbrev pub node_or_zero : Option Node → Node
node_or_zero none = zero_node
node_or_zero (some n) = n

unfoldable pub node_of : Bytes → Config → Node
unfolding find
node_of name c = node_or_zero (find name c.topology)

-- The mode tests that the code makes again and again.
abbrev pub is_ipv6_mode : Config → Bool
is_ipv6_mode c = eq_str c.general.mode ipv6_net_mode

abbrev pub is_dual_stack : Config → Bool
is_dual_stack c = eq_str c.general.mode dual_stack_net_mode
