-- ===== src/Prepare/Routes.antt =====
-- prepare.go: the management interface, and the routes to the NAT64 server.
use lazyjack.Base.{
  Bytes, List, [], ◌∷◌, ◌++◌, Bool, not, ◌&&◌, Option, none, some, if◌then◌else◌, show_hex, str,
  eq_str, Done, M, ◌>>◌, pure, fail, when, tolerate,
}
use lazyjack.Net.{Net}
use lazyjack.World.{Os}
use lazyjack.Config.{Config, Node, is_dual_stack}
use lazyjack.Address.{build_node_cidr}
use lazyjack.NetMgr.{
  add_address_to_link, set_link_mtu, add_route_using_support_net_interface,
  add_route_using_interface_name,
}

find_nat64 : Bytes → List (Bytes × Node) → Option Bytes
find_nat64 prefix [] = none
find_nat64 prefix ((_, node) ∷ rest) =
    if node.is_nat64_server then some (prefix ++ show_hex node.id) else find_nat64 prefix rest

unfoldable pub find_host_ip_for_nat64 : Config → Option Bytes
unfolding find_nat64
find_host_ip_for_nat64 c = find_nat64 c.mgmt.info0.prefix c.topology

abbrev pub no_nat64 : Bytes
no_nat64 = str "unable to find node with NAT64 server configured"

-- A route that exists already is no error.
abbrev pub file_exists : Bytes → Bool
file_exists e = eq_str e (str "file exists")

module _ (o : Os) (net : Net) where
  -- A route over the node's interface to the node that runs NAT64.
  unfoldable pub route_to_nat64 : Bytes → Node → Option Bytes → M (o.World) Done
  route_to_nat64 dest node none = fail no_nat64
  route_to_nat64 dest node (some gw) =
      tolerate file_exists (add_route_using_interface_name o net dest gw node.interface)

  unfoldable pub create_route_to_nat64_server_for_dns64_subnet : Node → Config → M (o.World) Done
  unfolding route_to_nat64
  create_route_to_nat64_server_for_dns64_subnet node c =
      if node.is_nat64_server
      then tolerate file_exists (
          add_route_using_support_net_interface o net c.dns64.cidr c.nat64.server_ip
            c.support.v4cidr)
      else route_to_nat64 c.dns64.cidr node (find_host_ip_for_nat64 c)

  unfoldable pub create_route_to_support_network_for_other_nodes : Node → Config → M (o.World) Done
  unfolding route_to_nat64
  create_route_to_support_network_for_other_nodes node c =
      if not node.is_nat64_server && not node.is_dns64_server
      then route_to_nat64 c.support.cidr node (find_host_ip_for_nat64 c)
      else pure tt

  unfoldable pub configure_management_interface : Node → Config → M (o.World) Done
  configure_management_interface node c = do
    add_address_to_link o net (build_node_cidr c.mgmt.info0 node.id) node.interface
    when (is_dual_stack c)
        (add_address_to_link o net (build_node_cidr c.mgmt.info1 node.id) node.interface)
    set_link_mtu o net node.interface c.pod.mtu
