-- ===== src/Address/Hosts.antt =====
-- The address of a node in /etc/hosts, and the one of its management interface.
use lazyjack.Base.{
  ℕ, zero, suc, ◌<◌, Bytes, ◌++◌, ◌≡◌, ◌↔◌, refl, ap, Bool, true, false, ◌&&◌, arith, ltb, pos,
  show_nat, show_int, show_hex, str, eq_str, eq_str_iff, eq_str_refl,
}
use lazyjack.Config.{Node, NetInfo, ipv6_net_mode}
use lazyjack.Prepare.Etc.{node_info}
use lazyjack.Address.{build_node_cidr}
use mathlib.Core.List.{append_cancel_left, append_cancel_right}

-- A test that every ID below a bound passes.
passed : (ℕ → Bool) → ℕ → Bool
passed test zero = true
passed test (suc bound) = passed test bound && test bound

passed-test :
    (test : ℕ → Bool) (bound id : ℕ) → id < bound → passed test bound ≡ true → test id ≡ true
unfolding passed
passed-test test zero id l e = absurd (omega arith)
passed-test test (suc bound) id l e = ground (arith, passed-test test bound id)

abbrev same_bool : Bool → Bool → Bool
same_bool true b = b
same_bool false true = false
same_bool false false = true

-- Two verbs print an ID of one byte alike exactly if it has one decimal digit.
abbrev alike : ℕ → Bool
alike n = same_bool (eq_str (show_hex (pos n)) (show_int (pos n))) (ltb n 10)

table : passed alike 256 ≡ true
unfolding passed eq_str show_hex show_int
table = refl

show_hex-show_int : (n : ℕ) → n < 256 → (show_hex (pos n) ≡ show_int (pos n)) ↔ (n < 10)
show_hex-show_int n h =
    ground
      (arith, passed-test alike 256 n h table, eq_str_iff (show_hex (pos n)) (show_int (pos n)))

pub between : (p a b s t : Bytes) → (p ++ a ++ s ++ t ≡ p ++ b ++ s ++ t) ↔ (a ≡ b)
between p a b s t = (
  λ e. append_cancel_left p a b (
      append_cancel_right (p ++ a) (p ++ b) s
        (append_cancel_right (p ++ a ++ s) (p ++ b ++ s) t e)),
  λ e. ap (λ x. p ++ x ++ s ++ t) e,
)

-- On an IPv6 management network, an ID below 256 gives a node the same address in /etc/hosts as on
-- its interface exactly if the ID is below 10.
pub build_node_cidr-node_info :
    (info : NetInfo) (name : Bytes) (node : Node) (n : ℕ)
    → info.mode ≡ ipv6_net_mode
    → node.id ≡ pos n
    → n < 256
    → (build_node_cidr info node.id
        ≡ (node_info info.prefix (name, node)).ip ++ str "/" ++ show_nat info.size)
      ↔ (n < 10)
unfolding build_node_cidr
build_node_cidr-node_info info name node n mode id h =
    let same = show_hex-show_int n h in
    let cut =
      between info.prefix (show_hex (pos n)) (show_int (pos n)) (str "/") (show_nat info.size) in
    rw (mode, id, eq_str_refl ipv6_net_mode) (λ e. same.0 (cut.0 e), λ l. cut.1 (same.1 l))
