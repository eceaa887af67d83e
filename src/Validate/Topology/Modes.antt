-- ===== src/Validate/Topology/Modes.antt =====
-- What `ValidateNodeOpModes` leaves in a node.
use lazyjack.Base.{
  Bytes, List, [], ◌∷◌, ◌≡◌, refl, sym, ◌∙◌, ap, Bool, true, false, ◌&&◌, arith, Bool-cases, inl,
  inr, Result, ok, Done, M,
}
use lazyjack.Base.Split.{split}
use lazyjack.Base.Steps.{follow-eq-ok}
use lazyjack.Config.{Node}
use lazyjack.Validate.Topology.{
  match_round, match_modes, ops_loop, check_modes, valid_modes, validate_node_op_modes,
}

-- A node is not both master and minion, and it runs both servers or none.
pub record IsConsistent (n : Node) : Type 0 where
  pub one_role : n.is_master && n.is_minion ≡ false
  pub both_servers : n.is_dns64_server ≡ n.is_nat64_server

-- Two nodes differ in the flags of their roles at most.
pub record SameNode (n m : Node) : Type 0 where
  pub same_name : m.name ≡ n.name
  pub same_id : m.id ≡ n.id
  pub same_interface : m.interface ≡ n.interface

match_round-SameNode :
    (mode op : Bytes) (n : Node) (st : Bool × Node)
    → SameNode n st.1
    → SameNode n (match_round mode op st).1
unfolding match_round
match_round-SameNode mode op n (found, m) h = ground arith

match_modes-SameNode :
    (modes : List Bytes) (op : Bytes) (n : Node) (st : Bool × Node)
    → SameNode n st.1
    → SameNode n (match_modes modes op st).1
unfolding match_modes
match_modes-SameNode [] op n st h = h
match_modes-SameNode (mode ∷ modes) op n st h =
    match_modes-SameNode modes op n (match_round mode op st) (match_round-SameNode mode op n st h)

ops_loop-SameNode :
    (modes ops : List Bytes) (any_modes : Bool) (n m : Node)
    → SameNode n m
    → SameNode n (ops_loop modes ops any_modes m).1
unfolding ops_loop
ops_loop-SameNode modes [] any_modes n m h = h
ops_loop-SameNode modes ([] ∷ ops) any_modes n m h = ops_loop-SameNode modes ops any_modes n m h
ops_loop-SameNode modes ((b ∷ op) ∷ ops) any_modes n m h =
    let found = match_modes modes (b ∷ op) (false, m) in
    let same = match_modes-SameNode modes (b ∷ op) n (false, m) h in
    elim (Bool-cases found.0) [
      | inl e ↦ rw e (ops_loop-SameNode modes ops true n found.1 same)
      | inr e ↦ rw e same
    ]

check_modes-IsConsistent :
    (any_modes : Bool) (n : Node) → check_modes any_modes n ≡ ok tt → IsConsistent n
unfolding check_modes
check_modes-IsConsistent any_modes n h = ground arith

-- A node that passes has a consistent set of roles, and is the given node but for them.
pub validate_node_op_modes-IsConsistent :
    (net_mode : Bytes) (n : Node)
    → (validate_node_op_modes net_mode n).0 ≡ ok tt
    → IsConsistent (validate_node_op_modes net_mode n).1
      × SameNode n (validate_node_op_modes net_mode n).1
unfolding validate_node_op_modes
validate_node_op_modes-IsConsistent net_mode n h =
    let ops = ops_loop (valid_modes net_mode) (split b' ' n.operating_modes) false n in
    let check : Bool → M Node Done = λ any_modes m. (check_modes any_modes m, m) in
    let (any_modes, _, q) = follow-eq-ok check ops tt h in
    let checked = ap (λ (r : Result Done × Node). r.0) (sym q) ∙ h in
    rw q (
      check_modes-IsConsistent any_modes ops.1 checked,
      ops_loop-SameNode (valid_modes net_mode) (split b' ' n.operating_modes) false n n
          (record { same_name = refl; same_id = refl; same_interface = refl }),
    )
