-- ===== src/NetLink.antt =====
-- netlink_client.go: the methods of `NetLink`, which pass their calls on to the netlink library.
use lazyjack.Base.{ℤ, Bytes, List, Done, M}
use lazyjack.Net.{IpNet}
use lazyjack.World.{Os, Link, Addr, Route, Family}

module _ (o : Os) where
  abbrev pub addr_del : Link → Addr → M (o.World) Done
  addr_del link addr = o.addr_del link addr

  abbrev pub addr_list : Link → Family → M (o.World) (List Addr)
  addr_list link family = o.addr_list link family

  abbrev pub addr_replace : Link → Addr → M (o.World) Done
  addr_replace link addr = o.addr_replace link addr

  abbrev pub link_by_name : Bytes → M (o.World) Link
  link_by_name name = o.link_by_name name

  abbrev pub link_list : M (o.World) (List Link)
  link_list = o.link_list

  abbrev pub parse_addr : Bytes → M (o.World) Addr
  parse_addr s = o.parse_addr s

  abbrev pub parse_ip_net : Bytes → M (o.World) IpNet
  parse_ip_net s = o.parse_ip_net s

  abbrev pub route_add : Route → M (o.World) Done
  route_add route = o.route_add route

  abbrev pub route_del : Route → M (o.World) Done
  route_del route = o.route_del route

  abbrev pub link_set_down : Link → M (o.World) Done
  link_set_down link = o.link_set_down link

  abbrev pub link_del : Link → M (o.World) Done
  link_del link = o.link_del link

  abbrev pub link_set_mtu : Link → ℤ → M (o.World) Done
  link_set_mtu link mtu = o.link_set_mtu link mtu
