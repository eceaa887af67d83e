-- ===== src/Prepare/Etc/Sorted.antt =====
-- `BuildNodeInfo`: every node once, in the order of the names.
use lazyjack.Base.{
  Bytes, List, [], ◌∷◌, ◌≡◌, refl, true, false, arith, map, lt_str, Bool-cases, inl, inr,
}
use lazyjack.Config.{Config}
use lazyjack.EtcFiles.Hosts.{NodeInfo}
use lazyjack.Prepare.Etc.{node_info, hosts_prefix, insert_node, sort_nodes, build_node_info}
use mathlib.Core.List.{Perm}
use mathlib.Core.List.Perm

-- No entry stands directly behind one with a greater name.
abbrev pub IsSorted : List NodeInfo → Type 0
IsSorted [] = Unit
IsSorted (a ∷ []) = Unit
IsSorted (a ∷ b ∷ n) = (lt_str b.name a.name ≡ false) × IsSorted (b ∷ n)

lt_str_asymm : (s t : Bytes) → lt_str s t ≡ true → lt_str t s ≡ false
unfolding lt_str
lt_str_asymm [] [] h = cc
lt_str_asymm [] (b ∷ t) h = refl
lt_str_asymm (a ∷ s) [] h = cc
lt_str_asymm (a ∷ s) (b ∷ t) h = ground (arith, lt_str_asymm s t)

insert_node-IsSorted : (a : NodeInfo) (n : List NodeInfo) → IsSorted n → IsSorted (insert_node a n)
unfolding insert_node
insert_node-IsSorted a [] h = tt
insert_node-IsSorted a (b ∷ []) h = elim (Bool-cases (lt_str b.name a.name)) [
  | inl e ↦ rw e (lt_str_asymm b.name a.name e, tt)
  | inr e ↦ rw e (e, tt)
]
insert_node-IsSorted a (b ∷ c ∷ n) (h, hs) =
    let ih = insert_node-IsSorted a (c ∷ n) hs in
    elim (Bool-cases (lt_str b.name a.name)) [
      | inl e ↦ elim (Bool-cases (lt_str c.name a.name)) [
        | inl f ↦ rw (e, f) (h, rw f at ih)
        | inr f ↦ rw (e, f) (lt_str_asymm b.name a.name e, rw f at ih)
      ]
      | inr e ↦ rw e (e, (h, hs))
    ]

insert_node-perm : (a : NodeInfo) (n : List NodeInfo) → Perm (insert_node a n) (a ∷ n)
unfolding insert_node
insert_node-perm a [] = Perm.refl (a ∷ [])
insert_node-perm a (b ∷ n) = elim (Bool-cases (lt_str b.name a.name)) [
  | inl e ↦ rw e (Perm.trans (Perm.cons b (insert_node-perm a n)) (Perm.swap a b n))
  | inr e ↦ rw e (Perm.refl (a ∷ b ∷ n))
]

sort_nodes_lem : (n : List NodeInfo) → IsSorted (sort_nodes n) × Perm (sort_nodes n) n
unfolding sort_nodes
sort_nodes_lem [] = (tt, Perm.refl [])
sort_nodes_lem (a ∷ n) =
    let (s, p) = sort_nodes_lem n in
    (
      insert_node-IsSorted a (sort_nodes n) s,
      Perm.trans (insert_node-perm a (sort_nodes n)) (Perm.cons a p),
    )

-- The nodes' entries are sorted by name, and they are those of the configuration's nodes, each as
-- often as it occurs there, under the prefix of the management network.
pub build_node_info_lem :
    (c : Config)
    → IsSorted (build_node_info c)
      × Perm (build_node_info c) (map (node_info (hosts_prefix c)) c.topology)
unfolding build_node_info
build_node_info_lem c = sort_nodes_lem (map (node_info (hosts_prefix c)) c.topology)
