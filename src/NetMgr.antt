-- ===== src/NetMgr.antt =====
-- netmgr.go: addresses, routes and links, by the operations of `NetLinkAPI`.
pub mod Bridge
pub mod Frame
use lazyjack.Base.{
  ℕ, ℤ, Bytes, List, [], ◌∷◌, ◌++◌, Bool, true, false, not, Option, none, some, if◌then◌else◌, str,
  quote, Result, ok, err, panic, Done, M, ◌>>=◌, ◌>>◌, pure, fail, lift, wrap, when, recover,
}
use lazyjack.Net.{Net, IpNet}
use lazyjack.Validate.General.{parse_error}
use lazyjack.NetLink
use lazyjack.World.{Os, Link, Addr, Route, family_all, family_v4}

-- `BuildRoute`
unfoldable pub build_route : Net → Bytes → Bytes → ℕ → Result Route
build_route net dest gw index = elim (net.parse_cidr dest) [
  | none ↦
      err (str "unable to parse destination CIDR " ++ quote dest ++ str ": " ++ parse_error dest)
  | some (_, cidr) ↦ elim (net.parse_ip gw) [
    | none ↦ err (str "unable to parse gateway IP " ++ quote gw)
    | some ip ↦ ok (record { dst = cidr; gw = ip; route_index = index })
  ]
]

module _ (o : Os) (net : Net) where
  no_interface : Bytes → Bytes → Bytes
  no_interface intf e = str "unable to find interface " ++ quote intf

  unfoldable pub add_address_to_link : Bytes → Bytes → M (o.World) Done
  add_address_to_link ip intf = do
    link ←
        wrap (NetLink.link_by_name o intf)
          (λ e. str "unable to find interface " ++ quote intf ++ str " by name: " ++ e)
    addr ← wrap (NetLink.parse_addr o ip) (λ e. str "malformed address " ++ quote ip)
    wrap (NetLink.addr_replace o link addr)
        (λ e. str "unable to add ip " ++ quote ip ++ str " to interface " ++ quote intf)

  any_equal : Addr → List Addr → Bool
  any_equal addr [] = false
  any_equal addr (a ∷ as') = if o.addr_equal addr a then true else any_equal addr as'

  unfoldable pub address_exists_on_link : Addr → Link → M (o.World) Bool
  unfolding any_equal
  address_exists_on_link addr link =
      recover (NetLink.addr_list o link family_all >>= λ addrs. pure (any_equal addr addrs))
        (λ _. pure false)

  unfoldable pub remove_address_from_link : Bytes → Bytes → M (o.World) Done
  unfolding address_exists_on_link no_interface
  remove_address_from_link ip intf = do
    link ← wrap (NetLink.link_by_name o intf) (no_interface intf)
    addr ← wrap (NetLink.parse_addr o ip) (λ e. str "malformed address to delete " ++ quote ip)
    there ← address_exists_on_link addr link
    when (not there) (
        fail (
          str "skipping - address "
          ++ quote ip
          ++ str " does not exist on interface "
          ++ quote intf))
    wrap (NetLink.addr_del o link addr)
        (λ e. str "unable to delete ip " ++ quote ip ++ str " from interface " ++ quote intf)

  any_within : IpNet → List Addr → Bool
  any_within c [] = false
  any_within c (a ∷ as') = if net.net_contains c a.addr_ip then true else any_within c as'

  -- The loop over the links; an error of `AddrList` counts as no addresses.
  find_link : Bytes → IpNet → List Link → M (o.World) ℕ
  unfolding any_within
  find_link cidr c [] = fail (str "unable to find interface for CIDR " ++ quote cidr)
  find_link cidr c (link ∷ links) = do
    addrs ← recover (NetLink.addr_list o link family_v4) (λ _. pure [])
    if any_within c addrs then pure (link.link_index) else find_link cidr c links

  pick_link : Bytes → IpNet → List Link → M (o.World) ℕ
  unfolding find_link
  pick_link cidr c [] = fail (str "no links on system")
  pick_link cidr c (link ∷ links) = find_link cidr c (link ∷ links)

  unfoldable pub find_link_index_for_cidr : Bytes → M (o.World) ℕ
  unfolding pick_link
  find_link_index_for_cidr cidr = do
    c ← NetLink.parse_ip_net o cidr
    links ← recover (NetLink.link_list o) (λ _. pure [])
    pick_link cidr c links

  unfoldable pub add_route_using_support_net_interface : Bytes → Bytes → Bytes → M (o.World) Done
  unfolding find_link_index_for_cidr
  add_route_using_support_net_interface dest gw support_net_cidr = do
    index ← find_link_index_for_cidr support_net_cidr
    route ← lift (build_route net dest gw index)
    NetLink.route_add o route

  unfoldable pub delete_route_using_support_net_interface : Bytes → Bytes → Bytes → M (o.World) Done
  unfolding find_link_index_for_cidr
  delete_route_using_support_net_interface dest gw support_net_cidr = do
    index ← find_link_index_for_cidr support_net_cidr
    route ← lift (build_route net dest gw index)
    NetLink.route_del o route

  unfoldable pub add_route_using_interface_name : Bytes → Bytes → Bytes → M (o.World) Done
  unfolding no_interface
  add_route_using_interface_name dest gw intf = do
    link ← wrap (NetLink.link_by_name o intf) (no_interface intf)
    route ← lift (build_route net dest gw link.link_index)
    NetLink.route_add o route

  unfoldable pub delete_route_using_interface_name : Bytes → Bytes → Bytes → M (o.World) Done
  delete_route_using_interface_name dest gw intf = do
    link ←
        wrap (NetLink.link_by_name o intf)
          (λ e. str "skipping - Unable to find interface " ++ quote intf ++ str " to delete route")
    route ← lift (build_route net dest gw link.link_index)
    NetLink.route_del o route

  unfoldable pub bring_link_down : Bytes → M (o.World) Done
  unfolding no_interface
  bring_link_down name = do
    link ← wrap (NetLink.link_by_name o name) (no_interface name)
    wrap (NetLink.link_set_down o link) (λ e. str "unable to shut down interface " ++ quote name)

  unfoldable pub delete_link : Bytes → M (o.World) Done
  unfolding no_interface
  delete_link name = do
    link ← wrap (NetLink.link_by_name o name) (no_interface name)
    wrap (NetLink.link_del o link) (λ e. str "unable to delete interface " ++ quote name)

  unfoldable pub set_link_mtu : Bytes → ℤ → M (o.World) Done
  unfolding no_interface
  set_link_mtu name mtu = do
    link ← wrap (NetLink.link_by_name o name) (no_interface name)
    wrap (NetLink.link_set_mtu o link mtu)
        (λ e. str "unable to set MTU on interface " ++ quote name)

  -- What `RemoveBridge` returns for the results of its two steps, neither a panic.
  both_results : Bytes → Result Done × o.World → Result Done × o.World
  both_results e (ok _, w) = (err e, w)
  both_results e (err e2, w) = (
    err (str "unable to bring link down (" ++ e ++ str "), nor remove link (" ++ e2 ++ str ")"),
    w,
  )
  both_results e (panic, w) = (panic, w)

  -- The second step is made whatever error the first one has.
  then_delete : Bytes → Result Done × o.World → Result Done × o.World
  unfolding delete_link both_results
  then_delete name (ok _, w) = delete_link name w
  then_delete name (err e, w) = both_results e (delete_link name w)
  then_delete name (panic, w) = (panic, w)

  unfoldable pub remove_bridge : Bytes → M (o.World) Done
  unfolding bring_link_down then_delete
  remove_bridge name w = then_delete name (bring_link_down name w)
