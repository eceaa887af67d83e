-- ===== src/Prepare.antt =====
-- prepare.go: the action "prepare", which readies a node for the cluster.
pub mod Etc
pub mod Kubelet
pub mod Readied
pub mod Routes
pub mod Servers
pub mod Templates
use lazyjack.Base.{Bytes, Bool, ◌||◌, if◌then◌else◌, Done, M, ◌>>=◌, ◌>>◌, pure, when, tolerate}
use lazyjack.Net.{Net}
use lazyjack.World.{Os}
use lazyjack.Hypervisor.{Hypervisor}
use lazyjack.Docker.{docker}
use lazyjack.Config.{Config, Node, node_of, is_ipv6_mode}
use Etc.{add_host_entries, add_resolv_conf_entry}
use Kubelet.{create_kubelet_drop_in_file, create_kube_adm_config_file}
use Routes.{
  configure_management_interface, create_route_to_nat64_server_for_dns64_subnet,
  create_route_to_support_network_for_other_nodes,
}
use Servers.{is_skipping, create_support_network, prepare_dns64_server, prepare_nat64_server}

module _ (o : Os) (net : Net) where
  unfoldable pub prepare_cluster_node : Node → Config → M (o.World) Done
  prepare_cluster_node node c = do
    configure_management_interface o net node c
    add_host_entries o c
    add_resolv_conf_entry o node c
    create_kubelet_drop_in_file o c
    when (node.is_master) (create_kube_adm_config_file o node c)
    when (is_ipv6_mode c) (
        create_route_to_nat64_server_for_dns64_subnet o net node c
        >> create_route_to_support_network_for_other_nodes o net node c)

  unfoldable pub prepare_servers : Hypervisor (o.World) → Node → Config → M (o.World) Done
  prepare_servers h node c = do
    when (node.is_dns64_server || node.is_nat64_server)
        (tolerate is_skipping (create_support_network o h c))
    when (node.is_dns64_server) (prepare_dns64_server o h c)
    when (node.is_nat64_server) (prepare_nat64_server o h net c)

  unfoldable pub prepare : Bytes → Config → M (o.World) Done
  unfolding prepare_servers
  prepare name c = do
    when (is_ipv6_mode c) (prepare_servers (docker o) (node_of name c) c)
    when ((node_of name c).is_master || (node_of name c).is_minion)
        (prepare_cluster_node (node_of name c) c)
