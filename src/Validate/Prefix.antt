-- ===== src/Validate/Prefix.antt =====
-- `GetNetAndMask`, `MakePrefixFromNetwork`, `MakeV4PrefixFromNetwork`, the checks of a network's
-- size, and `ExtractNetInfo`.
pub mod Family
pub mod Parts
use lazyjack.Base.{
  ℕ, zero, suc, ◌/◌, ◌-◌, Bytes, List, [], ◌∷◌, ◌++◌, Bool, false, not, ◌&&◌, Option, none, some,
  if◌then◌else◌, ltb, leb, ◌==◌, str, show_nat, trim_right, trim_suffix, Result, ok, err, panic,
  Done, M, ◌>>=◌, ◌>>◌, lift, modify, get,
}
use lazyjack.Base.Split.{split, join}
use lazyjack.Config.{NetInfo, ipv4_net_mode, ipv6_net_mode}
use lazyjack.Net.{Net}
use lazyjack.Validate.General.{is_empty, parse_error}

abbrev pub is_colon : ℕ → Bool
is_colon c = c == b':'

abbrev pub count_of : List Bytes → ℕ
count_of [] = 0
count_of (_ ∷ ps) = suc (count_of ps)

-- `parts[i] = strings.TrimSuffix(parts[i], "00")`
unfoldable pub trim_part : ℕ → List Bytes → List Bytes
trim_part i [] = []
trim_part zero (p ∷ ps) = trim_suffix (str "00") p ∷ ps
trim_part (suc i) (p ∷ ps) = p ∷ trim_part i ps

-- The loop that appends zeros, `n` times.
unfoldable pub zeros : ℕ → List Bytes
zeros zero = []
zeros (suc n) = str "0" ∷ zeros n

unfoldable pub make_prefix_from_network : Bytes → ℕ → Bytes
unfolding trim_part zeros
make_prefix_from_network network net_size =
    let needed = net_size / 16 in
    let parts = split b':' (trim_right is_colon network) in
    let have = count_of parts in
    let trimmed = if ltb needed have then trim_part needed parts else parts in
    let prefix = join b':' (trimmed ++ zeros (needed - have)) in
    if ltb needed have then prefix else prefix ++ str ":"

unfoldable pub make_v4_prefix_from_network : Bytes → Result Bytes
make_v4_prefix_from_network ip = elim (split b'.' ip) [
  | a ∷ b ∷ c ∷ _ ↦ ok (a ++ str "." ++ b ++ str "." ++ c ++ str ".")
  | _ ↦ panic
]

-- `SizeCheck` and its instances.
abbrev pub SizeCheck : Type 0
SizeCheck = ℕ → Result Done

unfoldable pub check_unlimited_size : SizeCheck
check_unlimited_size size = ok tt

unfoldable pub check_mgmt_size : SizeCheck
check_mgmt_size size =
    if not (size == 8) && not (size == 16)
    then err (
        str "only /8 and /16 are supported for an IPv4 management network - have /"
        ++ show_nat size)
    else ok tt

unfoldable pub check_pod_size : SizeCheck
check_pod_size size =
    if not (size == 16)
    then err (str "only /16 is supported for IPv4 pod networks - have /" ++ show_nat size)
    else ok tt

unfoldable pub check_service_size : SizeCheck
check_service_size size =
    if leb 24 size
    then err (str "service subnet size must be /23 or larger - have /" ++ show_nat size)
    else ok tt

module _ (net : Net) where
  unfoldable pub get_net_and_mask : Bytes → Option (Bytes × ℕ)
  get_net_and_mask input = elim (net.parse_cidr input) [
    | none ↦ none
    | some (_, cidr) ↦ some (net.ip_string cidr.ip, cidr.ones)
  ]

  unfoldable pub is_ipv4 : Bytes → Bool
  is_ipv4 ip = elim (net.parse_ip ip) [ none ↦ false | some a ↦ net.is_to4 a ]

  -- The end of `ExtractNetInfo`, for an IPv4 network.
  finish_v4 : SizeCheck → M NetInfo Done
  finish_v4 check = do
    info ← get
    lift (check info.size)
    prefix ← lift (make_v4_prefix_from_network info.prefix)
    modify λ i. record i { prefix = prefix }

  -- `ExtractNetInfo` behind the parse.
  classify : SizeCheck → Bytes × ℕ → M NetInfo Done
  unfolding finish_v4
  classify check (prefix, size) info =
      if is_ipv4 prefix
      then finish_v4 check (record { prefix = prefix; size = size; mode = ipv4_net_mode })
      else (ok tt, record { prefix = prefix; size = size; mode = ipv6_net_mode })

  unfoldable pub extract_net_info : Bytes → SizeCheck → M NetInfo Done
  unfolding classify
  extract_net_info cidr check info =
      if is_empty cidr then (err (str "missing CIDR"), info) else elim (get_net_and_mask cidr) [
        | none ↦ (err (parse_error cidr), record info { prefix = []; size = 0 })
        | some found ↦ classify check found info
      ]
