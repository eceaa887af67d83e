-- ===== src/Validate/Prefix/Family.antt =====
-- The family and the size that `ExtractNetInfo` finds.
use lazyjack.Base.{
  ℕ, ◌<◌, Bytes, [], ◌∷◌, ◌≡◌, ◌⊎◌, refl, arith, ok, Option-cases, Bool-cases, inl, inr,
}
use lazyjack.Net.{Net}
use lazyjack.Config.{NetInfo, ipv4_net_mode, ipv6_net_mode}
use lazyjack.Validate.Prefix.{
  SizeCheck, check_mgmt_size, check_service_size, check_pod_size, get_net_and_mask, finish_v4,
  classify, extract_net_info, is_ipv4,
}

-- An IPv4 network of a size that is allowed, or an IPv6 network.
abbrev pub IsNetwork : (ℕ → Type 0) → NetInfo → Type 0
IsNetwork Allowed i = ((i.mode ≡ ipv4_net_mode) × Allowed i.size) ⊎ (i.mode ≡ ipv6_net_mode)

abbrev pub MgmtSize : ℕ → Type 0
MgmtSize n = (n ≡ 8) ⊎ (n ≡ 16)

abbrev pub PodSize : ℕ → Type 0
PodSize n = n ≡ 16

abbrev pub ServiceSize : ℕ → Type 0
ServiceSize n = n < 24

check_mgmt_size-ok : (n : ℕ) → check_mgmt_size n ≡ ok tt → MgmtSize n
unfolding check_mgmt_size
check_mgmt_size-ok n h = ground arith

check_pod_size-ok : (n : ℕ) → check_pod_size n ≡ ok tt → PodSize n
unfolding check_pod_size
check_pod_size-ok n h = ground arith

check_service_size-ok : (n : ℕ) → check_service_size n ≡ ok tt → ServiceSize n
unfolding check_service_size
check_service_size-ok n h = ground arith

module _ (net : Net) where
  module _ (Allowed : ℕ → Type 0) (check : SizeCheck)
      (sound : (n : ℕ) → check n ≡ ok tt → Allowed n) where
    finish_v4-ok :
        (i : NetInfo)
        → i.mode ≡ ipv4_net_mode
        → (finish_v4 net check i).0 ≡ ok tt
        → IsNetwork Allowed (finish_v4 net check i).1
    unfolding finish_v4
    finish_v4-ok i e h = ground (arith, sound i.size)

    extract_net_info-ok :
        (cidr : Bytes) (i : NetInfo)
        → (extract_net_info net cidr check i).0 ≡ ok tt
        → IsNetwork Allowed (extract_net_info net cidr check i).1
    unfolding extract_net_info classify
    extract_net_info-ok [] i h = cc
    extract_net_info-ok (b ∷ cidr) i h = elim (Option-cases (get_net_and_mask net (b ∷ cidr))) [
      | inl e ↦ cc (rw e at h)
      | inr ((p, n), e) ↦
          let found : NetInfo = record { prefix = p; size = n; mode = ipv4_net_mode } in
          elim (Bool-cases (is_ipv4 net p)) [
            | inl v ↦ rw (e, v) (finish_v4-ok found refl (rw (e, v) at h))
            | inr v ↦ rw (e, v) (inr refl)
          ]
    ]

  pub mgmt_info-ok :
      (cidr : Bytes) (i : NetInfo)
      → (extract_net_info net cidr check_mgmt_size i).0 ≡ ok tt
      → IsNetwork MgmtSize (extract_net_info net cidr check_mgmt_size i).1
  mgmt_info-ok = extract_net_info-ok MgmtSize check_mgmt_size check_mgmt_size-ok

  pub pod_info-ok :
      (cidr : Bytes) (i : NetInfo)
      → (extract_net_info net cidr check_pod_size i).0 ≡ ok tt
      → IsNetwork PodSize (extract_net_info net cidr check_pod_size i).1
  pod_info-ok = extract_net_info-ok PodSize check_pod_size check_pod_size-ok

  pub service_info-ok :
      (cidr : Bytes) (i : NetInfo)
      → (extract_net_info net cidr check_service_size i).0 ≡ ok tt
      → IsNetwork ServiceSize (extract_net_info net cidr check_service_size i).1
  service_info-ok = extract_net_info-ok ServiceSize check_service_size check_service_size-ok
