-- ===== src/Plugin.antt =====
-- plugin.go, bridge_plugin.go and ptp_plugin.go: the CNI plugins. Both hold the pointer to the
-- configuration, which is an argument here.
pub mod Content
pub mod Order
use lazyjack.Base.{
  ℕ, Bytes, List, [], ◌∷◌, ◌++◌, Bool, true, false, not, ◌||◌, Option, none, some, if◌then◌else◌, ℤ,
  eq_int, show_nat, str, eq_str, quote, Result, ok, err, panic, Done, M, ◌>>=◌, ◌>>◌, pure, fail,
  crash, lift, recover, wrap,
}
use lazyjack.Net.{Net}
use lazyjack.World.{Os}
use lazyjack.Config.{Config, Node, NetInfo, CniPlugin, bridge_plugin, point_to_point_plugin}
use lazyjack.Address.{build_pod_subnet_prefix, build_gw_ip}
use lazyjack.NetMgr.{
  add_route_using_interface_name, delete_route_using_interface_name, remove_bridge,
}

-- The argument `op`, `"add"` or `"delete"`.
pub data RouteOp : Type 0 where
  add delete : RouteOp

abbrev pub op_name : RouteOp → Bytes
op_name add = str "add"
op_name delete = str "delete"

abbrev pub is_cluster_node : Node → Bool
is_cluster_node n = n.is_master || n.is_minion

module _ (o : Os) (net : Net) where
  do_op : RouteOp → Bytes → Bytes → Bytes → M (o.World) Done
  do_op add dest gw intf = add_route_using_interface_name o net dest gw intf
  do_op delete dest gw intf = delete_route_using_interface_name o net dest gw intf

  -- The text of an operation's error.
  pub route_error : RouteOp → Bytes → Bytes → Bytes → Bytes → Bytes
  route_error add dest gw name e =
      if eq_str e (str "file exists")
      then str "skipping - "
        ++ str "add"
        ++ str " route to "
        ++ dest
        ++ str " via "
        ++ gw
        ++ str " as already exists"
      else str "unable to "
        ++ str "add"
        ++ str " pod network route for "
        ++ dest
        ++ str " to "
        ++ name
        ++ str ": "
        ++ e
  route_error delete dest gw name e =
      if eq_str e (str "no such process")
      then str "skipping - "
        ++ str "delete"
        ++ str " route from "
        ++ dest
        ++ str " via "
        ++ gw
        ++ str " as non-existent"
      else str "unable to "
        ++ str "delete"
        ++ str " pod network route for "
        ++ dest
        ++ str " to "
        ++ name
        ++ str ": "
        ++ e

  pub route_to : RouteOp → Node → NetInfo → NetInfo → Node → M (o.World) Done
  unfolding do_op route_error
  route_to op node p_info m_info n = do
    (prefix, suffix) ← lift (build_pod_subnet_prefix p_info.mode p_info.prefix p_info.size n.id)
    let dest = prefix ++ suffix ++ str "/" ++ show_nat p_info.size
    let gw = build_gw_ip m_info.prefix n.id
    wrap (do_op op dest gw node.interface) (route_error op dest gw n.name)

  -- The loop over the nodes, but for the node itself and those without a cluster role.
  routes_to : RouteOp → Node → NetInfo → NetInfo → List (Bytes × Node) → M (o.World) Done
  unfolding route_to
  routes_to op node p_info m_info [] = pure tt
  routes_to op node p_info m_info ((_, n) ∷ rest) =
      (if eq_int n.id node.id
        then pure tt
        else if is_cluster_node n
        then route_to op node p_info m_info n
        else pure tt)
      >> routes_to op node p_info m_info rest

  -- The loop over `c.Pod.Info`; the management network of the same family is looked for.
  pod_routes : RouteOp → Node → Config → List NetInfo → M (o.World) Done
  unfolding routes_to
  pod_routes op node c [] = pure tt
  pod_routes op node c (p_info ∷ rest) =
      (elim p_info.prefix [
        | [] ↦ pure tt
        | _ ∷ _ ↦
            routes_to op node p_info
              (if not (eq_str p_info.mode c.mgmt.info0.mode) then c.mgmt.info1 else c.mgmt.info0)
              c.topology
      ])
      >> pod_routes op node c rest

  unfoldable pub do_route_ops_on_nodes : Node → Config → RouteOp → M (o.World) Done
  unfolding pod_routes
  do_route_ops_on_nodes node c op =
      if is_cluster_node node
      then pod_routes op node c (c.pod.info0 ∷ c.pod.info1 ∷ [])
      else pure tt

  unfoldable pub create_routes_for_pod_network : Node → Config → M (o.World) Done
  create_routes_for_pod_network node c = do_route_ops_on_nodes node c add

  unfoldable pub remove_routes_for_pod_network : Node → Config → M (o.World) Done
  remove_routes_for_pod_network node c = do_route_ops_on_nodes node c delete

  -- The methods of `BridgePlugin` and of `PointToPointPlugin`.
  setup_bridge : Node → Config → M (o.World) Done
  setup_bridge n c = create_routes_for_pod_network n c

  setup_ptp : Node → Config → M (o.World) Done
  setup_ptp n c = create_routes_for_pod_network n c

  cleanup_bridge : Node → Config → M (o.World) Done
  cleanup_bridge n c = do
    wrap (remove_routes_for_pod_network n c)
        (λ e. str "unable to remove routes for bridge plugin: " ++ e)
    wrap (remove_bridge o net (str "br0")) (λ e. str "unable to remove br0 bridge: " ++ e)

  cleanup_ptp : Node → Config → M (o.World) Done
  cleanup_ptp n c =
      wrap (remove_routes_for_pod_network n c)
        (λ e. str "unable to remove routes for PTP plugin: " ++ e)

  -- The methods of `PluginAPI`. A call on the nil interface panics.
  unfoldable pub setup : Option CniPlugin → Node → Config → M (o.World) Done
  unfolding setup_bridge setup_ptp
  setup none n c = crash
  setup (some bridge_plugin) n c = setup_bridge n c
  setup (some point_to_point_plugin) n c = setup_ptp n c

  unfoldable pub cleanup_plugin : Option CniPlugin → Node → Config → M (o.World) Done
  unfolding cleanup_bridge cleanup_ptp
  cleanup_plugin none n c = crash
  cleanup_plugin (some bridge_plugin) n c = cleanup_bridge n c
  cleanup_plugin (some point_to_point_plugin) n c = cleanup_ptp n c
