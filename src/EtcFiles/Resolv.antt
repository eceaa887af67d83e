-- ===== src/EtcFiles/Resolv.antt =====
-- prepare.go: `UpdateResolvConfInfo`, the edit of /etc/resolv.conf.
pub mod Body
pub mod Restore
pub mod Serves
pub mod Again
use lazyjack.Base.{
  Bytes, List, [], ◌∷◌, ◌++◌, Bool, true, false, not, ◌&&◌, if◌then◌else◌, str, has_prefix,
  has_suffix, contains,
}
use lazyjack.Base.Split.{text_lines}
use lazyjack.EtcFiles.Edit.{added_tag, removed_tag}

abbrev pub nameserver_key : Bytes
nameserver_key = str "nameserver"

abbrev pub added_server : Bytes → Bytes
added_server ns = str "nameserver " ++ ns ++ added_tag

-- What is written before a line that names a server.
unfoldable pub resolv_mark : Bool → Bytes → Bool → Bytes
resolv_mark first ns matches =
    if first && not matches
    then added_server ns ++ 10 ∷ []
    else if not first && matches
    then removed_tag
    else []

-- A round of the loop; the state is `first` and the output.
unfoldable pub resolv_round : Bytes → Bytes → Bool × Bytes → Bool × Bytes
resolv_round ns line (first, output) =
    if has_suffix added_tag line
    then (first, output)
    else if has_prefix nameserver_key line
    then (false, output ++ (resolv_mark first ns (contains ns line) ++ (line ++ 10 ∷ [])))
    else (first, output ++ (line ++ 10 ∷ []))

unfoldable pub resolv_loop : Bytes → List Bytes → Bool × Bytes → Bool × Bytes
resolv_loop ns [] st = st
resolv_loop ns (line ∷ lines) st = resolv_loop ns lines (resolv_round ns line st)

unfoldable pub update_resolv_conf_info : Bytes → Bytes → Bytes
unfolding resolv_loop resolv_round resolv_mark
update_resolv_conf_info contents ns =
    let (first, output) = resolv_loop ns (text_lines contents) (true, []) in
    if first then output ++ (added_server ns ++ 10 ∷ []) else output
