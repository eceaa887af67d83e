-- ===== src/NetMgr/Frame.antt =====
-- What adding a route leaves alone.
use lazyjack.Base.{Bytes, List, [], ◌∷◌}
use lazyjack.Base.Rules.{
  Keeps, Keeps->>=, Keeps-recover, Keeps-if, Keeps-pure, Keeps-lift, Keeps-fail,
}
use lazyjack.Net.{Net, IpNet}
use lazyjack.World.{Os, Link, Route, Family}
use lazyjack.NetMgr.{
  any_within, find_link, pick_link, find_link_index_for_cidr, add_route_using_support_net_interface,
}

-- A part of the world that the network's operations leave as it is.
pub record IsOutside (o : Os) {X : Type 0} (part : o.World → X) : Type 0 where
  pub parse_keeps : (s : Bytes) → Keeps part (o.parse_ip_net s)
  pub links_keep : Keeps part (o.link_list)
  pub addrs_keep : (l : Link) (f : Family) → Keeps part (o.addr_list l f)
  pub route_keeps : (r : Route) → Keeps part (o.route_add r)

module _ (o : Os) (net : Net) {X : Type 0} (part : o.World → X) (out : IsOutside o part) where
  find_link-Keeps :
      (cidr : Bytes) (c : IpNet) (links : List Link) → Keeps part (find_link o net cidr c links)
  unfolding find_link
  find_link-Keeps cidr c [] = Keeps-fail
  find_link-Keeps cidr c (link ∷ links) =
      Keeps->>= (Keeps-recover (out.addrs_keep link _) (λ _. Keeps-pure))
        λ addrs. Keeps-if (any_within o net c addrs) Keeps-pure (find_link-Keeps cidr c links)

  pick_link-Keeps :
      (cidr : Bytes) (c : IpNet) (links : List Link) → Keeps part (pick_link o net cidr c links)
  unfolding pick_link
  pick_link-Keeps cidr c [] = Keeps-fail
  pick_link-Keeps cidr c (link ∷ links) = find_link-Keeps cidr c (link ∷ links)

  pub add_route_using_support_net_interface-Keeps :
      (dest gw cidr : Bytes) → Keeps part (add_route_using_support_net_interface o net dest gw cidr)
  unfolding add_route_using_support_net_interface find_link_index_for_cidr
  add_route_using_support_net_interface-Keeps dest gw cidr =
      Keeps->>=
        (Keeps->>= (out.parse_keeps cidr) λ c.
          Keeps->>= (Keeps-recover out.links_keep (λ _. Keeps-pure))
            λ links. pick_link-Keeps cidr c links)
        λ index. Keeps->>= Keeps-lift λ route. out.route_keeps route
