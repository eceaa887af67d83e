-- ===== src/World.antt =====
-- What lazyjack reaches outside itself: files, commands, Docker and the kernel's network. The
-- operations are those of package `os` and `os/exec`, and those of the netlink library
-- that netlink_client.go calls for `NetLinkAPI` (netlink_api.go).
pub mod Path
use lazyjack.Base.{ℕ, ℤ, Bytes, List, Bool, Option, Result, Done, M}
use lazyjack.Net.{IpNet}

-- `netlink.Link`, by the attributes that are used.
pub record Link : Type 0 where
  pub link_name : Bytes
  pub link_index : ℕ

-- `netlink.Addr`
pub record Addr : Type 0 where
  pub addr_ip : Bytes
  pub addr_ones : ℕ

-- `netlink.Route`
pub record Route : Type 0 where
  pub dst : IpNet
  pub gw : Bytes
  pub route_index : ℕ

pub data Family : Type 0 where
  family_all family_v4 : Family

-- A command's output; or its error and what it wrote.
pub data Ran : Type 0 where
  succeeded : Bytes → Ran
  failed : Bytes → Bytes → Ran

pub record Os : Type 1 where
  pub World : Type 0
  -- `os.Stat` followed by `os.IsNotExist`: true if the error says that there is no such file.
  pub is_missing : Bytes → World → Bool
  pub read_file : Bytes → M World Bytes
  pub write_file : Bytes → Bytes → M World Done
  pub rename : Bytes → Bytes → M World Done
  pub remove : Bytes → M World Done
  pub remove_all : Bytes → M World Done
  pub mkdir_all : Bytes → M World Done
  pub chmod : Bytes → ℕ → M World Done
  -- `os.OpenFile(O_CREATE|O_WRONLY)`, a write to the open file, and `Close`.
  pub open_file : Bytes → M World Done
  pub write_open : Bytes → Bytes → M World Done
  pub close_file : Bytes → M World Done
  -- `os.Open`, `os.Create`, `io.Copy` from the second file to the first, and `Sync`.
  pub open_source : Bytes → M World Done
  -- `ioutil.ReadAll` of an open file.
  pub read_open : Bytes → M World Bytes
  pub create_file : Bytes → M World Done
  pub copy_into : Bytes → Bytes → M World Done
  pub sync_file : Bytes → M World Done
  -- `exec.Command(cmd, args...)` with `Output` and with `CombinedOutput`.
  pub output : Bytes → List Bytes → World → Ran × World
  pub combined_output : Bytes → List Bytes → World → Ran × World
  pub link_by_name : Bytes → M World Link
  pub parse_addr : Bytes → M World Addr
  pub parse_ip_net : Bytes → M World IpNet
  pub addr_list : Link → Family → M World (List Addr)
  pub addr_replace : Link → Addr → M World Done
  pub addr_del : Link → Addr → M World Done
  -- `Addr.Equal`
  pub addr_equal : Addr → Addr → Bool
  pub link_list : M World (List Link)
  pub route_add : Route → M World Done
  pub route_del : Route → M World Done
  pub link_set_down : Link → M World Done
  pub link_del : Link → M World Done
  pub link_set_mtu : Link → ℤ → M World Done
  -- `netlink.NewHandle`
  pub new_handle : M World Done
