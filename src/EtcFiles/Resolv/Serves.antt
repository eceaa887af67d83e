-- ===== src/EtcFiles/Resolv/Serves.antt =====
-- The lines of the edited file that name a server.
use lazyjack.Base.{
  Bytes, List, [], ◌∷◌, ◌++◌, ◌≡◌, refl, Option, none, some, true, false, inl, inr, if◌then◌else◌,
  All, Bool-cases, str, has_prefix, contains,
}
use lazyjack.Base.Split.{text_lines, Lacks}
use lazyjack.EtcFiles.Edit.{removed_tag, Clean}
use lazyjack.EtcFiles.Resolv.{nameserver_key, added_server, update_resolv_conf_info}
use lazyjack.EtcFiles.Resolv.Body.{server_lines, resolv_body}
use lazyjack.EtcFiles.Resolv.Restore.{text_lines-update_resolv_conf_info}

-- The lines that name a server, in order.
pub nameservers : List Bytes → List Bytes
nameservers [] = []
nameservers (l ∷ ls) =
    let rest = nameservers ls in if has_prefix nameserver_key l then l ∷ rest else rest

-- The first of some lines.
abbrev pub first_line : List Bytes → Option Bytes
first_line [] = none
first_line (l ∷ ls) = some l

-- Of the lines `new` that name a server, the first is the one that is written for `ns`, or was the
-- first such line of the file before, `old`, and contains `ns`. No further one contains `ns`.
pub data Serves (ns : Bytes) (old : List Bytes) : List Bytes → Type 0 where
  added :
      {l : Bytes} {ls : List Bytes}
      → l ≡ added_server ns
      → first_line ls ≡ first_line old
      → All (λ m. contains ns m ≡ false) ls
      → Serves ns old (l ∷ ls)
  first_kept :
      {l : Bytes} {ls : List Bytes}
      → first_line old ≡ some l
      → contains ns l ≡ true
      → All (λ m. contains ns m ≡ false) ls
      → Serves ns old (l ∷ ls)

added_server-key : (ns : Bytes) → has_prefix nameserver_key (added_server ns) ≡ true
unfolding str has_prefix
added_server-key ns = refl

pub removed-key : (l : Bytes) → has_prefix nameserver_key (removed_tag ++ l) ≡ false
unfolding str has_prefix
removed-key l = refl

rest_absent :
    (ns : Bytes) (lines : List Bytes)
    → All (λ m. contains ns m ≡ false) (nameservers (resolv_body ns false lines))
unfolding nameservers resolv_body server_lines
rest_absent ns [] = tt
rest_absent ns (l ∷ ls) =
    let ih = rest_absent ns ls in
    elim (Bool-cases (has_prefix nameserver_key l)) [
      | inl e ↦ elim (Bool-cases (contains ns l)) [
        | inl c ↦ rw (e, c, removed-key l) ih
        | inr c ↦ rw (e, c, e) (c, ih)
      ]
      | inr e ↦ rw (e, e) ih
    ]

body-Serves :
    (ns : Bytes) (lines : List Bytes)
    → Serves ns (nameservers lines) (nameservers (resolv_body ns true lines))
unfolding nameservers resolv_body server_lines
body-Serves ns [] = rw (added_server-key ns) (added refl refl tt)
body-Serves ns (l ∷ ls) = elim (Bool-cases (has_prefix nameserver_key l)) [
  | inl e ↦ elim (Bool-cases (contains ns l)) [
    | inl c ↦ rw (e, c, e) (first_kept refl c (rest_absent ns ls))
    | inr c ↦ rw (e, c, added_server-key ns, e) (added refl refl (c, rest_absent ns ls))
  ]
  | inr e ↦ rw (e, e) (body-Serves ns ls)
]

-- Of the updated file's lines that begin with `nameserver`, the first is the line added for the
-- given server, before the one that was first; or it is the line that was first before, which
-- contains the server's text. No later one contains that text. The file must have no tags, and the
-- server no newline.
pub update_resolv_conf_info-Serves :
    (contents ns : Bytes)
    → Clean contents
    → Lacks 10 ns
    → Serves ns
        (nameservers (text_lines contents))
        (nameservers (text_lines (update_resolv_conf_info contents ns)))
update_resolv_conf_info-Serves contents ns clean h =
    rw (text_lines-update_resolv_conf_info contents ns clean h)
      (body-Serves ns (text_lines contents))
