-- ===== src/Validate/Topology/Roles.antt =====
-- What `ValidateOpModesForAllNodes` leaves alone, and what it keeps true.
use lazyjack.Base.{ℕ, Bytes, [], ◌∷◌, ◌≡◌, ◌≢◌, refl, arith, All, Result, ok, err, panic, Done}
use lazyjack.Base.Rules.{Keeps, Keeps->>=, Keeps-get}
use lazyjack.Config.{Config, Node}
use lazyjack.Validate.Topology.{
  masters_next, masters_round, masters_loop, validate_node_op_modes,
  validate_op_modes_for_all_nodes,
}
use lazyjack.Validate.Topology.Ids.{UniqueIds}
use lazyjack.Validate.Topology.Modes.{IsConsistent}
use lazyjack.Validate.Topology.Master.{Nodes, Checked}

masters_next-kept :
    (name : Bytes) (node : Node) (num : ℕ) (r : Result Done) (c : Config)
    → (masters_next name node num r c).1.general ≡ c.general
unfolding masters_next
masters_next-kept name node num (ok _) c = ground arith
masters_next-kept name node num (err e) c = refl
masters_next-kept name node num panic c = refl

masters_round-kept :
    (name : Bytes) (node : Node) (num : ℕ) → Keeps (λ c. c.general) (masters_round name node num)
unfolding masters_round
masters_round-kept name node num = record {
  kept_part = λ c.
      let (r, node') = validate_node_op_modes c.general.mode (record node { name = name }) in
      masters_next-kept name node' num r c;
}

masters_loop-kept : (nodes : Nodes) (num : ℕ) → Keeps (λ c. c.general) (masters_loop nodes num)
unfolding masters_loop
masters_loop-kept [] num = record { kept_part = λ c. refl }
masters_loop-kept ((name, node) ∷ rest) num =
    Keeps->>= (masters_round-kept name node num) (masters_loop-kept rest)

pub validate_op_modes_for_all_nodes-kept : Keeps (λ c. c.general) validate_op_modes_for_all_nodes
unfolding validate_op_modes_for_all_nodes
validate_op_modes_for_all_nodes-kept =
    Keeps->>= Keeps-get
      λ c. Keeps->>= (masters_loop-kept c.topology 0) λ num. record { kept_part = λ d. refl }

-- Every node carries its name and has a consistent set of roles.
abbrev pub AllNamed : Nodes → Type 0
AllNamed = All (λ (name, n). IsConsistent n × (n.name ≡ name))

pub Checked-AllNamed : (xs ys : Nodes) → Checked xs ys → AllNamed ys
Checked-AllNamed [] [] h = tt
Checked-AllNamed [] (_ ∷ ys) h = elim h [ ]
Checked-AllNamed ((a, n) ∷ xs) [] h = elim h [ ]
Checked-AllNamed ((a, n) ∷ xs) ((b, m) ∷ ys) (e, h, hs) =
    ((h.consistent, cc (h.named, e)), Checked-AllNamed xs ys hs)

Checked-absent :
    (k : Node) (xs ys : Nodes)
    → Checked xs ys
    → All (λ (_, m). m.id ≢ k.id) xs
    → All (λ (_, m). m.id ≢ k.id) ys
Checked-absent k [] [] h u = tt
Checked-absent k [] (_ ∷ ys) h u = elim h [ ]
Checked-absent k ((a, n) ∷ xs) [] h u = elim h [ ]
Checked-absent k ((a, n) ∷ xs) ((b, m) ∷ ys) (e, h, hs) (u, us) =
    (rw (h.checked_id) u, Checked-absent k xs ys hs us)

-- The check keeps the IDs, so they stay different.
pub Checked-UniqueIds : (xs ys : Nodes) → Checked xs ys → UniqueIds xs → UniqueIds ys
Checked-UniqueIds [] [] h u = tt
Checked-UniqueIds [] (_ ∷ ys) h u = elim h [ ]
Checked-UniqueIds ((a, n) ∷ xs) [] h u = elim h [ ]
Checked-UniqueIds ((a, n) ∷ xs) ((b, m) ∷ ys) (e, h, hs) (u, us) =
    (rw (h.checked_id) (Checked-absent n xs ys hs u), Checked-UniqueIds xs ys hs us)
