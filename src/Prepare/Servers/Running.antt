-- ===== src/Prepare/Servers/Running.antt =====
-- The servers run behind their preparation.
use lazyjack.Base.{Bytes, [], ◌∷◌, ◌≡◌, ◌∙◌, Bool, true, false, str, ok, ◌>>◌, when}
use lazyjack.Base.Rules.{
  Keeps, Keeps->>=, Keeps-wrap, Keeps-fail, Keeps-tolerate, Ensures, Ensures->>, Ensures-keep,
}
use lazyjack.Base.Skip.{tolerate_settled}
use lazyjack.Net.{Net}
use lazyjack.World.{Os}
use lazyjack.NetMgr.Frame.{IsOutside, add_route_using_support_net_interface-Keeps}
use lazyjack.Prepare.Servers.Inet.{parse_ipv4_address}
use lazyjack.Hypervisor.{Hypervisor}
use lazyjack.Hypervisor.Laws.{HypervisorLaws}
use lazyjack.Config.{
  Config, Node, ResourceState, running, exists, not_present, dns64_name, nat64_name,
}
use lazyjack.Prepare.{prepare_servers}
use lazyjack.Prepare.Servers.Ensured.{ensure_dns64_server-Settled, ensure_nat64_server-Settled}
use lazyjack.Prepare.Servers.{
  is_skipping, ensure_dns64_server, remove_ipv4_address_on_dns64_server,
  add_route_for_dns64_network, prepare_dns64_server, start_nat64, nat64_server_for,
  ensure_nat64_server, delete_found, ensure_route_to_nat64, prepare_nat64_server,
}

-- The container of each role that the node has runs.
abbrev pub RunsServers : {World : Type 0} → (Bytes → World → ResourceState) → Node → World → Type 0
RunsServers state node w =
    (node.is_dns64_server ≡ true → state dns64_name w ≡ running)
    × (node.is_nat64_server ≡ true → state nat64_name w ≡ running)

module _ (o : Os) (h : Hypervisor (o.World)) (state : Bytes → o.World → ResourceState)
    (L : HypervisorLaws h state) where
  -- What a container's preparation changes for another one: nothing.
  ensure_nat64_server-Keeps : (c : Config) → Keeps (state dns64_name) (ensure_nat64_server o h c)
  unfolding ensure_nat64_server nat64_server_for start_nat64
  ensure_nat64_server-Keeps c = Keeps->>= (L.asked_keeps nat64_name dns64_name) by_state
    where
      by_state : (x : ResourceState) → Keeps (state dns64_name) (nat64_server_for o h c x)
      by_state running = Keeps-fail
      by_state exists = Keeps->>= (Keeps-wrap _ L.delete_nat64_keeps) λ _. L.run_nat64_keeps _ c
      by_state not_present = L.run_nat64_keeps _ c

  remove_ipv4_address-Keeps : Keeps (state dns64_name) (remove_ipv4_address_on_dns64_server o h)
  unfolding remove_ipv4_address_on_dns64_server delete_found
  remove_ipv4_address-Keeps =
      Keeps->>= (L.interface_keeps (str "eth0")) λ config. by_address (parse_ipv4_address config)
    where
      by_address : (addr : Bytes) → Keeps (state dns64_name) (delete_found o h addr)
      by_address [] = Keeps-fail
      by_address (b ∷ addr) = L.address_keeps (b ∷ addr)

  add_route-Keeps : (c : Config) → Keeps (state dns64_name) (add_route_for_dns64_network o h c)
  unfolding add_route_for_dns64_network
  add_route-Keeps c = Keeps-wrap _ (L.route_keeps c.dns64.cidr c.nat64.server_ip)

  IsRunning : Bytes → o.World → Type 0
  IsRunning name w = state name w ≡ running

  prepare_dns64_server-Ensures :
      (c : Config) (P : o.World → Type 0)
      → Ensures (prepare_dns64_server o h c) P (IsRunning dns64_name)
  unfolding prepare_dns64_server IsRunning
  prepare_dns64_server-Ensures c P =
      Ensures->> {Q = λ w. state dns64_name w ≡ running}
        (record {
          ensured = λ w _ e.
              tolerate_settled is_skipping _ (ensure_dns64_server o h c) w
                (ensure_dns64_server-Settled o h state L c w) e;
        })
        (Ensures->> (Ensures-keep (λ x. x ≡ running) (Keeps-tolerate _ remove_ipv4_address-Keeps))
          (Ensures-keep (λ x. x ≡ running) (Keeps-tolerate is_skipping (add_route-Keeps c))))

  module _ (net : Net) (out : (q : Bytes) → IsOutside o (state q)) where
    ensure_route_to_nat64-Keeps :
        (c : Config) (q : Bytes) → Keeps (state q) (ensure_route_to_nat64 o h net c)
    unfolding ensure_route_to_nat64
    ensure_route_to_nat64-Keeps c q =
        Keeps-wrap _ (add_route_using_support_net_interface-Keeps o net (state q) (out q) _ _ _)

    prepare_nat64_server-Ensures :
        (c : Config) (P : o.World → Type 0)
        → Ensures (prepare_nat64_server o h net c) P (IsRunning nat64_name)
    unfolding prepare_nat64_server IsRunning
    prepare_nat64_server-Ensures c P =
        Ensures->> {Q = λ w. state nat64_name w ≡ running}
          (record {
            ensured = λ w _ e.
                tolerate_settled is_skipping _ (ensure_nat64_server o h c) w
                  (ensure_nat64_server-Settled o h state L c w) e;
          })
          (Ensures-keep (λ x. x ≡ running)
            (Keeps-tolerate is_skipping (ensure_route_to_nat64-Keeps c nat64_name)))

    prepare_nat64_server-Keeps :
        (c : Config) → Keeps (state dns64_name) (prepare_nat64_server o h net c)
    unfolding prepare_nat64_server
    prepare_nat64_server-Keeps c =
        Keeps->>= (Keeps-tolerate is_skipping (ensure_nat64_server-Keeps c))
          λ _. Keeps-tolerate is_skipping (ensure_route_to_nat64-Keeps c dns64_name)

    -- If the preparation of the servers succeeds, the DNS64 container runs on a node that has this role, and the
    -- NAT64 container on a node that has that one, whether it ran before, was stopped or was not there.
    pub prepare_servers-RunsServers :
        (node : Node) (c : Config) (w : o.World)
        → (prepare_servers o net h node c w).0 ≡ ok tt
        → RunsServers state node (prepare_servers o net h node c w).1
    unfolding prepare_servers IsRunning
    prepare_servers-RunsServers node c w e =
        let all : Ensures (prepare_servers o net h node c) (λ _. Unit {0})
            (RunsServers state node) =
          Ensures->> {Q = λ _. Unit {0}} (record { ensured = λ _ _ _. tt })
            (by_roles node.is_dns64_server node.is_nat64_server) in
        all.ensured w tt e
      where
        by_roles :
            (d n : Bool)
            → Ensures
                (when d (prepare_dns64_server o h c) >> when n (prepare_nat64_server o h net c))
                (λ _. Unit {0})
                (λ w.
                  (d ≡ true → state dns64_name w ≡ running)
                  × (n ≡ true → state nat64_name w ≡ running))
        by_roles false false = record { ensured = λ _ _ _. (λ x. cc, λ x. cc) }
        by_roles false true = record {
          ensured = λ s _ x.
              (λ y. cc, λ _. (prepare_nat64_server-Ensures c (λ _. Unit {0})).ensured s tt x);
        }
        by_roles true false =
            Ensures->> (prepare_dns64_server-Ensures c (λ _. Unit {0}))
              (record { ensured = λ s p _. (λ _. p, λ y. cc) })
        by_roles true true = Ensures->> (prepare_dns64_server-Ensures c (λ _. Unit {0})) (record {
          ensured = λ s p x. (
            λ _. (prepare_nat64_server-Keeps c).kept_part s ∙ p,
            λ _. (prepare_nat64_server-Ensures c (λ _. Unit {0})).ensured s tt x,
          );
        })
