-- ===== src/Address/Distinct.antt =====
-- The management addresses of nodes with different IDs are different.
use mathlib.Core.List.{append_assoc, append-nil, append_cancel_left, append_cancel_right}
use lazyjack.Base.{
  ℕ, Bytes, List, [], ◌∷◌, ◌++◌, ◌≡◌, refl, sym, ◌∙◌, ap, arith, Bool, true, false, ◌<◌, ◌^◌, ◌*◌,
  ◌%◌, ◌==◌, pos, mul_int, lt_nat, has_suffix, not, ◌&&◌, if◌then◌else◌, Result, ok, ◌≢◌,
  Bool-cases, inl, inr, ℤ, show_nat, show_int, show_hex, str, eq_str,
}
use lazyjack.Base.Digits.{IsInt, show_int-injective, show_hex-injective, padded, padded-injective}
use lazyjack.Base.Split.{split}
use lazyjack.Config.{NetInfo, ipv6_net_mode, ipv4_net_mode}
use lazyjack.Address.{build_node_cidr, v4_subnet, v6_subnet, build_pod_subnet_prefix}
use lazyjack.Address.Hosts.{between}

-- On a management network, two different IDs of 64 bits give different addresses.
pub build_node_cidr_distinct :
    (info : NetInfo) (a b : ℤ)
    → IsInt a
    → IsInt b
    → a ≢ b
    → build_node_cidr info a ≢ build_node_cidr info b
unfolding build_node_cidr
build_node_cidr_distinct info a b h k ne e = elim (Bool-cases (eq_str info.mode ipv6_net_mode)) [
  | inl m ↦ ne (
      show_hex-injective a b h k (
        (between info.prefix (show_hex a) (show_hex b) (str "/") (show_nat info.size)).0
          (rw m at e)))
  | inr m ↦ ne (
      show_int-injective a b h k (
        (between info.prefix (show_int a) (show_int b) (str "/") (show_nat info.size)).0
          (rw m at e)))
]

pos_eq : {a b : ℕ} → pos a ≡ pos b → a ≡ b
pos_eq e = cc

unpadded : (s t : Bytes) → s ++ [] ≡ t ++ [] → s ≡ t
unpadded s t e = sym (append-nil s) ∙ e ∙ append-nil t

shifted : (n : ℕ) → n < 2 ^ 55 → mul_int (pos n) 256 ≡ pos (n * 256)
shifted n h = ground arith

-- The text of a node's subnet within an IPv6 pod network.
v6_subnet-padded :
    (prefix : Bytes) (size n : ℕ)
    → n < 2 ^ 55
    → (m : ℕ) × (zero_first : Bool) × (v6_subnet prefix size (pos n)
        ≡ prefix ++ padded zero_first m ++ str "::")
      × (m ≡ (if not (size % 16 == 0) then n * 256 else n))
unfolding v6_subnet
v6_subnet-padded prefix size n h = elim (Bool-cases (not (size % 16 == 0))) [
  | inl e ↦ (n * 256, false, rw (e, shifted n h) refl, rw e refl)
  | inr e ↦ elim (Bool-cases (not (has_suffix (str ":") prefix) && lt_nat (pos n) 0x10)) [
    | inl f ↦ (n, true, rw (e, f) (simp append_assoc), rw e refl)
    | inr f ↦ (n, false, rw (e, f) refl, rw e refl)
  ]
]

scaled :
    (c : Bool) (a b m k : ℕ)
    → m ≡ k
    → m ≡ (if c then a * 256 else a)
    → k ≡ (if c then b * 256 else b)
    → a ≡ b
scaled c a b m k e p q = ground arith

scaled-lt : (c : Bool) (a m : ℕ) → a < 2 ^ 55 → m ≡ (if c then a * 256 else a) → m < 2 ^ 64
scaled-lt c a m h e = ground arith

v6_subnet-injective :
    (prefix : Bytes) (size a b : ℕ)
    → a < 2 ^ 55
    → b < 2 ^ 55
    → v6_subnet prefix size (pos a) ≡ v6_subnet prefix size (pos b)
    → a ≡ b
v6_subnet-injective prefix size a b ha hb same =
    let (m, z, p, e) = v6_subnet-padded prefix size a ha in
    let (k, y, q, f) = v6_subnet-padded prefix size b hb in
    let c = not (size % 16 == 0) in
    let cut = append_cancel_left prefix (padded z m) (padded y k) (
      append_cancel_right (prefix ++ padded z m) (prefix ++ padded y k) (str "::")
        (sym p ∙ same ∙ q)) in
    scaled c a b m k (padded-injective z y m k (scaled-lt c a m ha e) (scaled-lt c b k hb f) cut) e
      f

-- The text of a subnet.
subnet_text : Result (Bytes × Bytes) → Bytes
subnet_text (ok (p, s)) = p ++ s
subnet_text _ = []

v4_subnet-injective :
    (parts : List Bytes) (a b : ℕ) (p : Bytes × Bytes)
    → a < 2 ^ 55
    → b < 2 ^ 55
    → v4_subnet (pos a) parts ≡ ok p
    → subnet_text (v4_subnet (pos a) parts) ≡ subnet_text (v4_subnet (pos b) parts)
    → pos a ≡ pos b
unfolding v4_subnet subnet_text
v4_subnet-injective [] a b p ha hb e same = cc
v4_subnet-injective (x ∷ []) a b p ha hb e same = cc
v4_subnet-injective (x ∷ y ∷ r) a b p ha hb e same =
    show_int-injective (pos a) (pos b) (omega arith) (omega arith) (
      (between (x ++ str "." ++ y ++ str ".") (show_int (pos a)) (show_int (pos b)) (str ".")
          (str "0")).0
        same)

-- Two nodes' subnets within one pod network are different. The IDs must not be negative, and 256 times
-- an ID must fit in an integer.
pub build_pod_subnet_prefix_distinct :
    (mode prefix : Bytes) (size a b : ℕ) (p q s t : Bytes)
    → a < 2 ^ 55
    → b < 2 ^ 55
    → a ≢ b
    → build_pod_subnet_prefix mode prefix size (pos a) ≡ ok (p, s)
    → build_pod_subnet_prefix mode prefix size (pos b) ≡ ok (q, t)
    → p ++ s ≢ q ++ t
unfolding build_pod_subnet_prefix subnet_text
build_pod_subnet_prefix_distinct mode prefix size a b p q s t ha hb ne ea eb same =
    let texts : subnet_text (build_pod_subnet_prefix mode prefix size (pos a))
        ≡ subnet_text (build_pod_subnet_prefix mode prefix size (pos b)) =
      ap subnet_text ea ∙ same ∙ sym (ap subnet_text eb) in
    elim (Bool-cases (eq_str mode ipv4_net_mode)) [
      | inl m ↦
          let e : pos a ≡ pos b =
            v4_subnet-injective (split b'.' prefix) a b (p, s) ha hb (rw m at ea) (rw m at texts) in
          ne (pos_eq e)
      | inr m ↦ ne (v6_subnet-injective prefix size a b ha hb (unpadded _ _ (rw m at texts)))
    ]
