-- ===== src/Validate/Topology/Ids.antt =====
-- `ValidateUniqueIDs` accepts exactly the maps in which no ID occurs twice.
use lazyjack.Base.{
  Bytes, List, [], ◌∷◌, ◌≡◌, ◌≢◌, ◌↔◌, refl, true, Option, none, some, arith, All, ℤ, pos, negsuc,
  eq_int, Result, ok, Done,
}
use lazyjack.Config.{Config, Node}
use lazyjack.Validate.Topology.{IdMap, seen_id, ids_next, ids_loop, validate_unique_ids}

-- No two nodes have the same ID.
abbrev pub UniqueIds : List (Bytes × Node) → Type 0
UniqueIds [] = Unit
UniqueIds ((_, n) ∷ rest) = All (λ (_, m). m.id ≢ n.id) rest × UniqueIds rest

abbrev Unseen : IdMap → List (Bytes × Node) → Type 0
Unseen ids = All (λ (_, m). seen_id m.id ids ≡ none)

eq_int_iff : (a b : ℤ) → (eq_int a b ≡ true) ↔ (a ≡ b)
eq_int_iff (pos a) (pos b) = ground arith
eq_int_iff (pos a) (negsuc b) = ground arith
eq_int_iff (negsuc a) (pos b) = ground arith
eq_int_iff (negsuc a) (negsuc b) = ground arith

seen_id-cons :
    (k j : ℤ) (name : Bytes) (ids : IdMap)
    → (seen_id k ((j, name) ∷ ids) ≡ none) ↔ ((k ≢ j) × (seen_id k ids ≡ none))
unfolding seen_id
seen_id-cons k j name ids = ground (arith, eq_int_iff j k)

Unseen-cons :
    (j : ℤ) (name : Bytes) (ids : IdMap) (rest : List (Bytes × Node))
    → Unseen ((j, name) ∷ ids) rest ↔ (All (λ (_, m). m.id ≢ j) rest × Unseen ids rest)
Unseen-cons j name ids [] = (λ h. (tt, tt), λ h. tt)
Unseen-cons j name ids ((_, m) ∷ rest) =
    let ih = Unseen-cons j name ids rest in
    let here = seen_id-cons m.id j name ids in
    (
      λ (h, hs). (((here.0 h).0, (ih.0 hs).0), ((here.0 h).1, (ih.0 hs).1)),
      λ ((a, as'), (b, bs)). (here.1 (a, b), ih.1 (as', bs)),
    )

ids_next_iff :
    (name : Bytes) (node : Node) (seen : Option Bytes) (more : Result Done)
    → (ids_next name node seen more ≡ ok tt) ↔ ((seen ≡ none) × (more ≡ ok tt))
unfolding ids_next
ids_next_iff name node none more = ground arith
ids_next_iff name node (some first) more = ground arith

ids_loop_iff :
    (nodes : List (Bytes × Node)) (ids : IdMap)
    → (ids_loop nodes ids ≡ ok tt) ↔ (Unseen ids nodes × UniqueIds nodes)
unfolding ids_loop
ids_loop_iff [] ids = (λ h. (tt, tt), λ h. refl)
ids_loop_iff ((name, node) ∷ rest) ids =
    let ih = ids_loop_iff rest ((node.id, name) ∷ ids) in
    let step = Unseen-cons node.id name ids rest in
    let next =
      ids_next_iff name node (seen_id node.id ids) (ids_loop rest ((node.id, name) ∷ ids)) in
    (
      λ h.
          let (e, more) = next.0 h in
          let (unseen, unique) = ih.0 more in ((e, (step.0 unseen).1), ((step.0 unseen).0, unique)),
      λ ((e, u), (d, unique)). next.1 (e, ih.1 (step.1 (d, u), unique)),
    )

Unseen-nil : (nodes : List (Bytes × Node)) → Unseen [] nodes
unfolding seen_id
Unseen-nil [] = tt
Unseen-nil (_ ∷ rest) = (refl, Unseen-nil rest)

-- The check of the IDs succeeds exactly if no two nodes of the configuration have the same ID.
pub validate_unique_ids_iff : (c : Config) → (validate_unique_ids c ≡ ok tt) ↔ UniqueIds c.topology
unfolding validate_unique_ids
validate_unique_ids_iff c =
    let loop = ids_loop_iff c.topology [] in
    (λ h. (loop.0 h).1, λ u. loop.1 (Unseen-nil c.topology, u))
