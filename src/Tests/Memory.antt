-- ===== src/Tests/Memory.antt =====
-- A system whose world is a file store in memory, and the laws of its files.
use lazyjack.Base.{
  Bytes, [], ◌≡◌, ◌≢◌, refl, ◌∙◌, Option-cases, true, false, Option, none, some, arith,
  if◌then◌else◌, str, eq_str, eq_str_iff, ok, err, Done, M, Bool-cases, inl, inr,
}
use lazyjack.Net.{Net, IpNet}
use lazyjack.World.{Os, Link, Addr, Ran, succeeded, failed}
use lazyjack.Files.Laws.{FileLaws}

abbrev pub Store : Type 0
Store = Bytes → Option Bytes

abbrev pub set : Bytes → Option Bytes → Store → Store
set f v w g = if eq_str f g then v else w g

abbrev pub done : {A : Type 0} → A → M Store A
done a w = (ok a, w)

abbrev read : Bytes → M Store Bytes
read f w = elim (w f) [ none ↦ (err [], w) | some c ↦ (ok c, w) ]

abbrev write : Bytes → Bytes → M Store Done
write f c w = (ok tt, set f (some c) w)

abbrev rename : Bytes → Bytes → M Store Done
rename a b w = elim (w a) [ none ↦ (err [], w) | some c ↦ (ok tt, set b (some c) (set a none w)) ]

abbrev pub copy : Bytes → Bytes → M Store Done
copy d f w = elim (w f) [ none ↦ (err [], w) | some c ↦ (ok tt, set d (some c) w) ]

abbrev no_link : Link
no_link = record { link_name = []; link_index = 0 }

abbrev no_net : IpNet
no_net = record { ip = []; ones = 0 }

abbrev no_addr : Addr
no_addr = record { addr_ip = []; addr_ones = 0 }

-- Commands answer as given; the network answers everything with success.
abbrev pub memory_with : (Bytes → Ran) → Os
memory_with answer = record {
  World = Store;
  is_missing = λ f w. elim (w f) [ none ↦ true | some c ↦ false ];
  read_file = read;
  write_file = write;
  rename = rename;
  remove = λ f. done tt;
  remove_all = λ f. done tt;
  mkdir_all = λ f. done tt;
  chmod = λ f m. done tt;
  open_file = λ f. done tt;
  write_open = write;
  close_file = λ f. done tt;
  open_source = λ f. done tt;
  read_open = read;
  create_file = λ f. write f [];
  copy_into = copy;
  sync_file = λ f. done tt;
  output = λ c a w. (answer c, w);
  combined_output = λ c a w. (answer c, w);
  link_by_name = λ n. done no_link;
  parse_addr = λ s. done no_addr;
  parse_ip_net = λ s. done no_net;
  addr_list = λ l f. done [];
  addr_replace = λ l a. done tt;
  addr_del = λ l a. done tt;
  addr_equal = λ a b. eq_str a.addr_ip b.addr_ip;
  link_list = done [];
  route_add = λ r. done tt;
  route_del = λ r. done tt;
  link_set_down = λ l. done tt;
  link_del = λ l. done tt;
  link_set_mtu = λ l m. done tt;
  new_handle = done tt;
}

-- Every command fails.
abbrev pub memory : Os
memory = memory_with (λ c. failed [] [])

-- Every command writes a version.
abbrev pub kubeadm_11 : Os
kubeadm_11 = memory_with (λ c. succeeded (str "v1.11.0"))

abbrev pub contents : Bytes → Store → Option Bytes
contents f w = w f

pub set-same : (f : Bytes) (v : Option Bytes) (w : Store) → set f v w f ≡ v
set-same f v w = rw ((eq_str_iff f f).1 refl) refl

pub set-other : (f g : Bytes) (v : Option Bytes) (w : Store) → g ≢ f → set f v w g ≡ w g
set-other f g v w h = elim (Bool-cases (eq_str f g)) [
  | inl e ↦ absurd (h (cc ((eq_str_iff f g).0 e)))
  | inr e ↦ rw e refl
]

rename-content :
    (a b : Bytes) (w : Store) → a ≢ b → (rename a b w).0 ≡ ok tt → (rename a b w).1 b ≡ w a
rename-content a b w ne h = elim (Option-cases (w a)) [
  | inl e ↦ cc (rw (rename, e) at h)
  | inr (c, e) ↦ rw (rename, e) (set-same b (some c) (set a none w))
]

rename-others : (a b g : Bytes) (w : Store) → g ≢ a → g ≢ b → (rename a b w).1 g ≡ w g
rename-others a b g w p q = elim (Option-cases (w a)) [
  | inl e ↦ rw (rename, e) refl
  | inr (c, e) ↦ rw (rename, e) (set-other b g (some c) (set a none w) q ∙ set-other a g none w p)
]

pub memory_with-laws : (answer : Bytes → Ran) → FileLaws (memory_with answer) contents
memory_with-laws answer = record {
  missing = λ f w. ground arith;
  read_content = λ f w c h. ground arith;
  read_keeps = λ f g w. ground arith;
  write_content = λ f c w h. set-same f (some c) w;
  write_keeps = λ f c g w h. set-other f g (some c) w h;
  write_no_panic = λ f c w h. cc;
  rename_content = rename-content;
  rename_keeps = rename-others;
  rename_fails = λ a b g w h. ground arith;
  rename_no_panic = λ a b w h. ground arith;
}

pub memory-laws : FileLaws memory contents
memory-laws = memory_with-laws (λ c. failed [] [])

-- No text is an address.
abbrev pub no_addresses : Net
no_addresses = record {
  parse_cidr = λ s. none;
  parse_ip = λ s. none;
  ip_string = λ a. [];
  is_to4 = λ a. false;
  net_contains = λ n a. false;
}
