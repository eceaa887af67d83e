-- ===== src/Validate/Topology/Master.antt =====
-- `ValidateOpModesForAllNodes`: the map that it leaves, and its one master.
use lazyjack.Base.{
  ℕ, suc, ◌+◌, ◌≤◌, Bytes, List, [], ◌∷◌, ◌++◌, ◌≡◌, refl, sym, ◌∙◌, ap, subst, false, arith, All,
  ◌==◌, if◌then◌else◌, str, eq_str, eq_str_refl, Result, ok, err, panic, Done, M,
}
use lazyjack.Base.Steps.{follow-eq-ok}
use lazyjack.Config.{Config, Node, put}
use lazyjack.Validate.Topology.{
  validate_node_op_modes, masters_next, masters_round, masters_loop, store_node,
  validate_op_modes_for_all_nodes,
}
use lazyjack.Validate.Topology.Modes.{IsConsistent, SameNode, validate_node_op_modes-IsConsistent}
use mathlib.Core.List.{append_assoc}

abbrev pub Nodes : Type 0
Nodes = List (Bytes × Node)

abbrev pub names : Nodes → List Bytes
names [] = []
names ((k, _) ∷ nodes) = k ∷ names nodes

-- No name occurs twice among the given names and those of the map.
abbrev pub FreshNames : List Bytes → Nodes → Type 0
FreshNames ks [] = Unit
FreshNames ks ((name, _) ∷ rest) =
    All (λ k. eq_str k name ≡ false) ks × FreshNames (ks ++ name ∷ []) rest

-- How many nodes are masters.
pub masters : Nodes → ℕ
masters [] = 0
masters ((_, n) ∷ rest) = if n.is_master then suc (masters rest) else masters rest

-- A node under its key, before and after.
pub record IsChecked (name : Bytes) (n m : Node) : Type 0 where
  pub consistent : IsConsistent m
  pub named : m.name ≡ name
  pub checked_id : m.id ≡ n.id
  pub checked_interface : m.interface ≡ n.interface

-- The second map has the first one's keys in their order, with checked nodes.
abbrev pub Checked : Nodes → Nodes → Type 0
Checked [] [] = Unit
Checked [] (_ ∷ _) = ⊥
Checked (_ ∷ _) [] = ⊥
Checked ((a, n) ∷ xs) ((b, m) ∷ ys) = (b ≡ a) × IsChecked a n m × Checked xs ys

put-append :
    (done : Nodes) (name : Bytes) (n m : Node) (rest : Nodes)
    → All (λ k. eq_str k name ≡ false) (names done)
    → put name m (done ++ (name, n) ∷ rest) ≡ done ++ (name, m) ∷ rest
unfolding put
put-append [] name n m rest h = rw (eq_str_refl name)
put-append ((k, v) ∷ done) name n m rest (e, h) =
    rw e (ap (◌∷◌ (k, v)) (put-append done name n m rest h))

names-append : (xs : Nodes) (k : Bytes) (n : Node) → names (xs ++ (k, n) ∷ []) ≡ names xs ++ k ∷ []
names-append [] k n = refl
names-append ((j, _) ∷ xs) k n = ap (◌∷◌ j) (names-append xs k n)

-- A round that succeeds.
masters_round-ok :
    (name : Bytes) (n : Node) (num num' : ℕ) (c : Config)
    → (masters_round name n num c).0 ≡ ok num'
    → (m : Node) × IsChecked name n m
      × ((masters_round name n num c).1 ≡ store_node name m c)
      × (num' ≡ (if m.is_master then num + 1 else num))
      × (num' ≤ 1)
unfolding masters_round
masters_round-ok name n num num' c =
    step (validate_node_op_modes c.general.mode named).0 _
      (validate_node_op_modes-IsConsistent c.general.mode named)
  where
    named : Node
    named = record n { name = name }

    step :
        (r : Result Done) (m : Node)
        → (r ≡ ok tt → IsConsistent m × SameNode named m)
        → (masters_next name m num r c).0 ≡ ok num'
        → (m' : Node) × IsChecked name n m'
          × ((masters_next name m num r c).1 ≡ store_node name m' c)
          × (num' ≡ (if m'.is_master then num + 1 else num))
          × (num' ≤ 1)
    step (ok _) m h =
        unfold masters_next in
        λ e.
          let (a, b) = h refl in
          (
            m,
            record {
              consistent = a;
              named = b.same_name;
              checked_id = b.same_id;
              checked_interface = b.same_interface;
            },
            ground arith,
            ground arith,
            ground arith,
          )
    step (err x) m h = unfold masters_next in λ e. cc
    step panic m h = unfold masters_next in λ e. cc

masters-cons :
    (name : Bytes) (m : Node) (ys : Nodes) (num num' total : ℕ)
    → num' ≡ (if m.is_master then num + 1 else num)
    → total ≡ num' + masters ys
    → total ≡ num + masters ((name, m) ∷ ys)
unfolding masters
masters-cons name m ys num num' total e h = ground arith

stored :
    (c c1 : Config) (done : Nodes) (name : Bytes) (n m : Node) (rest : Nodes)
    → c.topology ≡ done ++ (name, n) ∷ rest
    → All (λ k. eq_str k name ≡ false) (names done)
    → c1 ≡ store_node name m c
    → c1.topology ≡ (done ++ (name, m) ∷ []) ++ rest
stored c c1 done name n m rest e absent h =
    ap (λ (d : Config). d.topology) h
    ∙ ap (put name m) e
    ∙ put-append done name n m rest absent
    ∙ sym (append_assoc done ((name, m) ∷ []) rest)

masters_loop-ok :
    (rest done : Nodes) (num total : ℕ) (c : Config)
    → c.topology ≡ done ++ rest
    → FreshNames (names done) rest
    → num ≤ 1
    → (masters_loop rest num c).0 ≡ ok total
    → (new : Nodes) × ((masters_loop rest num c).1.topology ≡ done ++ new)
      × Checked rest new
      × (total ≡ num + masters new)
      × (total ≤ 1)
unfolding masters_loop
masters_loop-ok [] done num total c e fresh le h =
    ([], e, tt, unfold masters in ground arith, ground arith)
masters_loop-ok ((name, n) ∷ rest) done num total c e (absent, fresh) le h =
    let (num', p, q) = follow-eq-ok (masters_loop rest) (masters_round name n num c) total h in
    let (m, checked, e1, count, le') = masters_round-ok name n num num' c p in
    let c1 = (masters_round name n num c).1 in
    let at = stored c c1 done name n m rest e absent e1 in
    let fresh' = subst (λ ks. FreshNames ks rest) (sym (names-append done name m)) fresh in
    let loop = ap (λ (r : Result ℕ × Config). r.0) (sym q) ∙ h in
    let (new, there, all, sum, le'') =
      masters_loop-ok rest (done ++ (name, m) ∷ []) num' total c1 at fresh' le' loop in
    (
      (name, m) ∷ new,
      ap (λ (r : Result ℕ × Config). r.1.topology) q
          ∙ there
          ∙ append_assoc done ((name, m) ∷ []) new,
      (refl, checked, all),
      masters-cons name m new num num' total count sum,
      le'',
    )

-- If the check of all nodes succeeds on a map in which no name occurs twice, the map that it
-- leaves has the same names in the same order, each with a node that carries its name, keeps its
-- ID and interface and has a consistent set of roles; and exactly one node is master.
pub validate_op_modes_for_all_nodes-Checked :
    (c c' : Config)
    → FreshNames [] c.topology
    → validate_op_modes_for_all_nodes c ≡ (ok tt, c')
    → Checked c.topology c'.topology × (masters c'.topology ≡ 1)
unfolding validate_op_modes_for_all_nodes
validate_op_modes_for_all_nodes-Checked c c' fresh h =
    let last : ℕ → M Config Done =
      λ num d. (if num == 0 then err (str "no master node configuration") else ok tt, d) in
    let result = λ (r : Result Done × Config). r.0 in
    let (total, p, q) = follow-eq-ok last (masters_loop c.topology 0 c) tt (ap result h) in
    let (new, there, all, sum, le) =
      masters_loop-ok c.topology [] 0 total c refl fresh (omega arith) p in
    let same : c'.topology ≡ new =
      ap (λ (r : Result Done × Config). r.1.topology) (sym h ∙ q) ∙ there in
    let counted : (if total == 0 then err (str "no master node configuration") else ok tt) ≡ ok tt =
      ap result (sym q) ∙ ap result h in
    rw same (all, ground arith)
