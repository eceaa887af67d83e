-- ===== src/Prepare/Etc/Unique.antt =====
-- `BuildNodeInfo`: no address twice.
use lazyjack.Base.{Bytes, List, [], ◌∷◌, ◌≢◌, sym, All, Bool-cases, inl, inr, show_int, lt_str, map}
use lazyjack.Base.Digits.{IsInt, show_int-injective}
use mathlib.Core.List.{append_cancel_left}
use lazyjack.Config.{Config, Node}
use lazyjack.EtcFiles.Hosts.{NodeInfo}
use lazyjack.Prepare.Etc.{node_info, hosts_prefix, insert_node, sort_nodes, build_node_info}
use lazyjack.Validate.Topology.Ids.{UniqueIds}

-- No two entries have the same address.
abbrev pub UniqueIps : List NodeInfo → Type 0
UniqueIps [] = Unit
UniqueIps (a ∷ n) = All (λ b. b.ip ≢ a.ip) n × UniqueIps n

module _ (P : NodeInfo → Type 0) where
  pub insert_node-All : (a : NodeInfo) (n : List NodeInfo) → P a → All P n → All P (insert_node a n)
  unfolding insert_node
  insert_node-All a [] p h = (p, tt)
  insert_node-All a (b ∷ n) p (q, h) = elim (Bool-cases (lt_str b.name a.name)) [
    | inl e ↦ rw e (q, insert_node-All a n p h)
    | inr e ↦ rw e (p, (q, h))
  ]

  pub sort_nodes-All : (n : List NodeInfo) → All P n → All P (sort_nodes n)
  unfolding sort_nodes
  sort_nodes-All [] h = tt
  sort_nodes-All (a ∷ n) (p, h) = insert_node-All a (sort_nodes n) p (sort_nodes-All n h)

insert_node-UniqueIps :
    (a : NodeInfo) (n : List NodeInfo)
    → All (λ b. b.ip ≢ a.ip) n
    → UniqueIps n
    → UniqueIps (insert_node a n)
unfolding insert_node
insert_node-UniqueIps a [] h u = (tt, tt)
insert_node-UniqueIps a (b ∷ n) (d, h) (v, u) = elim (Bool-cases (lt_str b.name a.name)) [
  | inl e ↦ rw e (
    insert_node-All (λ c. c.ip ≢ b.ip) a n (λ same. d (sym same)) v,
    insert_node-UniqueIps a n h u,
  )
  | inr e ↦ rw e ((d, h), (v, u))
]

sort_nodes-UniqueIps : (n : List NodeInfo) → UniqueIps n → UniqueIps (sort_nodes n)
unfolding sort_nodes
sort_nodes-UniqueIps [] u = tt
sort_nodes-UniqueIps (a ∷ n) (d, u) =
    insert_node-UniqueIps a (sort_nodes n) (sort_nodes-All (λ b. b.ip ≢ a.ip) n d)
      (sort_nodes-UniqueIps n u)

-- Every ID is an `int`.
abbrev pub IntIds : List (Bytes × Node) → Type 0
IntIds nodes = All (λ (_, n). IsInt n.id) nodes

module _ (prefix : Bytes) where
  others-distinct :
      (m : Bytes × Node) (nodes : List (Bytes × Node))
      → IsInt m.1.id
      → IntIds nodes
      → All (λ (_, n). n.id ≢ m.1.id) nodes
      → All (λ b. b.ip ≢ (node_info prefix m).ip) (map (node_info prefix) nodes)
  others-distinct m [] i is u = tt
  others-distinct m ((name, n) ∷ rest) i (j, is) (d, u) = (
    λ same. d (
        show_int-injective n.id m.1.id j i
          (append_cancel_left prefix (show_int n.id) (show_int m.1.id) same)),
    others-distinct m rest i is u,
  )

  node_info-UniqueIps :
      (nodes : List (Bytes × Node))
      → IntIds nodes
      → UniqueIds nodes
      → UniqueIps (map (node_info prefix) nodes)
  node_info-UniqueIps [] is u = tt
  node_info-UniqueIps ((name, n) ∷ rest) (i, is) (d, u) =
      (others-distinct (name, n) rest i is d, node_info-UniqueIps rest is u)

-- If no two nodes have the same ID, no two of the entries for /etc/hosts have the same address.
pub build_node_info-UniqueIps :
    (c : Config) → IntIds c.topology → UniqueIds c.topology → UniqueIps (build_node_info c)
unfolding build_node_info
build_node_info-UniqueIps c is u =
    sort_nodes-UniqueIps _ (node_info-UniqueIps (hosts_prefix c) c.topology is u)
