-- ===== src/Plugin/Order.antt =====
-- The routes to the pods of the other nodes.
use lazyjack.Base.{
  Bytes, List, [], ◌∷◌, ◌++◌, Bool, not, ◌&&◌, if◌then◌else◌, map, Result, ok, err, panic, Done, M,
  fail, crash, wrap, eq_int, eq_str, show_nat, str,
}
use lazyjack.Base.Sequence.{steps_if}
use lazyjack.Base.Takes.{Takes}
use lazyjack.Net.{Net}
use lazyjack.World.{Os}
use lazyjack.Config.{Config, Node, NetInfo}
use lazyjack.Address.{build_pod_subnet_prefix, build_gw_ip}
use lazyjack.NetMgr.{add_route_using_interface_name, delete_route_using_interface_name}
use lazyjack.Plugin.{RouteOp, add, delete, route_error, is_cluster_node}

-- The elements that pass a test, in their order.
abbrev pub select {ℓ} : {A : Type ℓ} → (A → Bool) → List A → List A
select test [] = []
select test (x ∷ xs) = let rest = select test xs in if test x then x ∷ rest else rest

-- The masters and minions with another ID.
abbrev pub peers : Node → List (Bytes × Node) → List (Bytes × Node)
peers node nodes = select (λ (_, n). not (eq_int n.id node.id) && is_cluster_node n) nodes

-- The management network of a pod network's family.
abbrev pub mgmt_for : Config → NetInfo → NetInfo
mgmt_for c info = if not (eq_str info.mode c.mgmt.info0.mode) then c.mgmt.info1 else c.mgmt.info0

-- The destination and the gateway of the route to a peer's pods: the peer's subnet of the pod
-- network with that network's size, and the peer's address on the management network.
pub record PodRoute : Type 0 where
  pub dest : Bytes
  pub gw : Bytes

abbrev pub route_for : NetInfo → NetInfo → Node → Result (Bytes × Bytes) → Result PodRoute
route_for info mgmt n (ok (prefix, suffix)) = ok (record {
  dest = prefix ++ suffix ++ str "/" ++ show_nat info.size;
  gw = build_gw_ip mgmt.prefix n.id;
})
route_for info mgmt n (err e) = err e
route_for info mgmt n panic = panic

module _ (o : Os) (net : Net) where
  -- One route through the node's interface, by the operation of the netlink manager.
  abbrev pub link_op : RouteOp → Bytes → PodRoute → M (o.World) Done
  link_op add intf r = add_route_using_interface_name o net r.dest r.gw intf
  link_op delete intf r = delete_route_using_interface_name o net r.dest r.gw intf

  abbrev pub peer_op : RouteOp → Node → Node → Result PodRoute → M (o.World) Done
  peer_op op node n (ok r) =
      wrap (link_op op node.interface r) (route_error o net op r.dest r.gw n.name)
  peer_op op node n (err e) = fail e
  peer_op op node n panic = crash

  -- The operation for a peer.
  abbrev pub peer_step : RouteOp → Node → NetInfo → NetInfo → Node → M (o.World) Done
  peer_step op node info mgmt n =
      peer_op op node n
        (route_for info mgmt n (build_pod_subnet_prefix info.mode info.prefix info.size n.id))

  -- One operation for each peer.
  abbrev pub peer_steps :
      RouteOp → Node → NetInfo → NetInfo → List (Bytes × Node) → List (M (o.World) Done)
  peer_steps op node info mgmt nodes =
      map (λ (_, n). peer_step op node info mgmt n) (peers node nodes)

  -- The same for each pod network that has a prefix; for a master or a minion alone.
  abbrev pub network_steps : RouteOp → Node → Config → List NetInfo → List (M (o.World) Done)
  network_steps op node c [] = []
  network_steps op node c (info ∷ rest) =
      (elim info.prefix [ [] ↦ [] | _ ∷ _ ↦ peer_steps op node info (mgmt_for c info) c.topology ])
      ++ network_steps op node c rest

  abbrev pub route_steps : RouteOp → Node → Config → List (M (o.World) Done)
  route_steps op node c =
      steps_if (is_cluster_node node) (network_steps op node c (c.pod.info0 ∷ c.pod.info1 ∷ []))
