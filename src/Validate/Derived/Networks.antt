-- ===== src/Validate/Derived/Networks.antt =====
-- What `CalculateDerivedFields` establishes of all networks together.
use lazyjack.Base.{Bytes, [], ◌≡◌, ◌⊎◌, refl, arith, eq_str_iff, ok}
use lazyjack.Base.Rules.{Keeps, Ensures, Ensures->>, Ensures-add, Ensures-keep}
use lazyjack.Net.{Net}
use lazyjack.Config.{Config, ManagementNetwork, PodNetwork, NetInfo, ipv6_net_mode}
use lazyjack.Validate.Prefix.Family.{IsNetwork, ServiceSize, service_info-ok}
use lazyjack.Validate.Derived.{
  derive_service, derive_support, second_pod, derive_pod, calculate_derived_fields,
}
use lazyjack.Validate.Derived.Frame.{frame, derive_dns64-Keeps}
use lazyjack.Validate.Derived.Families.{MgmtNetworks, PodNetworks, derive_mgmt-ok, derive_pod-ok}

-- A support network is there in IPv6 mode only.
abbrev pub SupportFits : Bytes → Bytes → Type 0
SupportFits mode cidr = (mode ≡ ipv6_net_mode) ⊎ (cidr ≡ [])

-- What has been derived, step by step.
abbrev pub View1 : Type 0
View1 = Bytes × ManagementNetwork

abbrev pub view1 : Config → View1
view1 c = (c.general.mode, c.mgmt)

abbrev pub view2 : Config → View1 × NetInfo
view2 c = (view1 c, c.service.info)

abbrev pub view3 : Config → (View1 × NetInfo) × Bytes
view3 c = (view2 c, c.support.cidr)

abbrev pub view4 : Config → ((View1 × NetInfo) × Bytes) × PodNetwork
view4 c = (view3 c, c.pod)

abbrev pub Derived1 : View1 → Type 0
Derived1 (mode, m) = MgmtNetworks mode m

abbrev pub Derived2 : View1 × NetInfo → Type 0
Derived2 (v, s) = Derived1 v × IsNetwork ServiceSize s

abbrev pub Derived3 : (View1 × NetInfo) × Bytes → Type 0
Derived3 (v, cidr) = Derived2 v × SupportFits v.0.0 cidr

abbrev pub Derived4 : ((View1 × NetInfo) × Bytes) × PodNetwork → Type 0
Derived4 (v, p) = Derived3 v × PodNetworks v.0.0.0 p

module _ (net : Net) where
  derive_service-view : Keeps view1 (derive_service net)
  unfolding derive_service
  derive_service-view = search frame

  derive_support-view : Keeps view2 (derive_support net)
  unfolding derive_support
  derive_support-view = search frame

  second_pod-view : (c : Config) (other : Bytes) → Keeps view3 (second_pod net c other)
  unfolding second_pod
  second_pod-view c other = search frame depth 8

  derive_pod-view : Keeps view3 (derive_pod net)
  unfolding derive_pod
  derive_pod-view = search (frame, second_pod-view) depth 10

  derive_service-ok :
      (c : Config)
      → (derive_service net c).0 ≡ ok tt
      → IsNetwork ServiceSize (derive_service net c).1.service.info
  unfolding derive_service
  derive_service-ok c h = ground (arith, service_info-ok net c.service.cidr c.service.info)

  derive_support-ok :
      (c : Config)
      → (derive_support net c).0 ≡ ok tt
      → SupportFits (derive_support net c).1.general.mode (derive_support net c).1.support.cidr
  unfolding derive_support
  derive_support-ok c h = ground (arith, eq_str_iff c.general.mode ipv6_net_mode)

  -- If the derivation succeeds, the networks fit each other and the mode. Each one is IPv6, or IPv4
  -- with a size that is allowed for it, and an IPv4 pod network has 24 bits for a node. In
  -- dual-stack mode there are two management and two pod networks, the second of the other family;
  -- in another mode the second CIDR is empty. Outside IPv6 mode there is no support network.
  pub calculate_derived_fields-ok :
      Ensures (calculate_derived_fields net) (λ c. Unit) (λ c. Derived4 (view4 c))
  unfolding calculate_derived_fields
  calculate_derived_fields-ok =
      Ensures->> (record { ensured = λ c _. derive_mgmt-ok net c })
        (Ensures->> (Ensures-add Derived1 _ derive_service-view derive_service-ok) (
          Ensures->> (Ensures-add Derived2 _ derive_support-view derive_support-ok) (
            Ensures->>
              (Ensures-add Derived3 _ derive_pod-view (λ c. (derive_pod-ok net).ensured c tt))
              (Ensures-keep Derived4 (derive_dns64-Keeps net view4 (λ p c. refl))))))
