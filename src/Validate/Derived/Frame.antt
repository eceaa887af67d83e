-- ===== src/Validate/Derived/Frame.antt =====
-- What `CalculateDerivedFields` leaves alone.
use lazyjack.Base.{
  Bytes, List, [], ◌≡◌, ◌⊎◌, refl, ap, ◌∙◌, ℤ, arith, Option-cases, Bool-cases, inl, inr,
}
use lazyjack.Base.Rules.{
  Keeps, Keeps->>=, Keeps-wrap, Keeps-when, Keeps-if, Keeps-get, Keeps-fail, Keeps-zoom,
}
use lazyjack.Net.{Net}
use lazyjack.Config.{Config, GeneralSettings, Node, is_ipv6_mode}
use lazyjack.Validate.Prefix.{get_net_and_mask}
use lazyjack.Validate.Derived.{
  second_mgmt, derive_mgmt, derive_service, derive_support, second_pod, derive_pod, derive_dns64,
  put_cidr_prefix, calculate_derived_fields,
}

-- What is settled before the networks are derived.
abbrev pub settled : Config → GeneralSettings × List (Bytes × Node) × ℤ
settled c = (c.general, c.topology, c.pod.mtu)

pub ruleset frame = (Keeps->>=, Keeps-wrap, Keeps-when, Keeps-if, Keeps-get, Keeps-fail, Keeps-zoom)

module _ (net : Net) where
  pub second_mgmt-kept : (c : Config) (other : Bytes) → Keeps settled (second_mgmt net c other)
  unfolding second_mgmt
  second_mgmt-kept c other = search frame

  pub derive_service-kept : Keeps settled (derive_service net)
  unfolding derive_service
  derive_service-kept = search frame

  pub derive_mgmt-kept : Keeps settled (derive_mgmt net)
  unfolding derive_mgmt
  derive_mgmt-kept = search (frame, second_mgmt-kept) depth 10

  pub derive_support-kept : Keeps settled (derive_support net)
  unfolding derive_support
  derive_support-kept = search frame

  pub second_pod-kept : (c : Config) (other : Bytes) → Keeps settled (second_pod net c other)
  unfolding second_pod
  second_pod-kept c other = search frame depth 8

  pub derive_pod-kept : Keeps settled (derive_pod net)
  unfolding derive_pod
  derive_pod-kept = search (frame, second_pod-kept) depth 10

  pub derive_dns64-state :
      (c : Config)
      → ((derive_dns64 net c).1 ≡ c)
        ⊎ ((p : Bytes) × ((derive_dns64 net c).1 ≡ put_cidr_prefix net p c))
  unfolding derive_dns64
  derive_dns64-state c = elim (Bool-cases (is_ipv6_mode c)) [
    | inl e ↦ elim (Option-cases (get_net_and_mask net c.dns64.cidr)) [
      | inl h ↦ inr ([], ground arith)
      | inr ((p, n), h) ↦ inr (p, ground arith)
    ]
    | inr e ↦ inl (ground arith)
  ]

  pub derive_dns64-Keeps :
      {X : Type 0} (f : Config → X)
      → ((p : Bytes) (c : Config) → f (put_cidr_prefix net p c) ≡ f c)
      → Keeps f (derive_dns64 net)
  derive_dns64-Keeps f h = record {
    kept_part = λ c. elim (derive_dns64-state c) [ inl e ↦ ap f e | inr (p, e) ↦ ap f e ∙ h p c ];
  }

  derive_dns64-kept : Keeps settled (derive_dns64 net)
  derive_dns64-kept = derive_dns64-Keeps settled (λ p c. refl)

  pub calculate_derived_fields-kept : Keeps settled (calculate_derived_fields net)
  unfolding calculate_derived_fields
  calculate_derived_fields-kept = search (
    Keeps->>=, derive_mgmt-kept, derive_service-kept, derive_support-kept, derive_pod-kept,
    derive_dns64-kept,
  )
