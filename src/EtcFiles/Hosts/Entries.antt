-- ===== src/EtcFiles/Hosts/Entries.antt =====
-- The lines of a hosts file that are entries of a node.
use lazyjack.Base.{
  ℕ, zero, suc, Bytes, List, [], ◌∷◌, ◌++◌, ◌≡◌, ◌⊎◌, inl, inr, refl, subst, true, false, Option,
  none, some, arith, All, Bool-cases, str, has_prefix, contains,
}
use mathlib.Core.Option
use lazyjack.EtcFiles.Edit.{added_tag}
use lazyjack.EtcFiles.Hosts.{NodeInfo, matching_node_index, node_at}

-- The line is no comment, and contains the texts of the name and of the address.
pub record IsEntry (name ip line : Bytes) : Type 0 where
  pub has_name : contains name line ≡ true
  pub has_ip : contains ip line ≡ true
  pub no_comment : has_prefix (str "#") line ≡ false

-- The line is one of the lines.
abbrev pub Among : Bytes → List Bytes → Type 0
Among line [] = ⊥
Among line (l ∷ lines) = (line ≡ l) ⊎ Among line lines

Among-weaken :
    (line : Bytes) (lines rest : List Bytes)
    → All (λ l. Among l lines) rest
    → All (λ l. Among l (line ∷ lines)) rest
Among-weaken line lines [] h = tt
Among-weaken line lines (r ∷ rest) (c, h) = (inr c, Among-weaken line lines rest h)

pub Among-All : (lines : List Bytes) → All (λ l. Among l lines) lines
Among-All [] = tt
Among-All (line ∷ lines) = (inl refl, Among-weaken line lines lines (Among-All lines))

-- A line that was an entry before, and still stands in the file.
pub record IsKept (old new : List Bytes) (name ip : Bytes) : Type 0 where
  pub entry : Bytes
  pub was : Among entry old
  pub stays : Among entry new
  pub is_entry : IsEntry name ip entry

-- A node has the line that is written for it, or a line that was taken for its entry.
abbrev pub Listed : List Bytes → List Bytes → Bytes → Bytes → Type 0
Listed old new name ip = Among (ip ++ str " " ++ name ++ added_tag) new ⊎ IsKept old new name ip

pub All-parts :
    {A : Type 0} (P : A → Type 0) (xs ys : List A) → All P (xs ++ ys) → All P xs × All P ys
All-parts P [] ys h = (tt, h)
All-parts P (x ∷ xs) ys (p, h) = let (a, b) = All-parts P xs ys h in ((p, a), b)

pub some_eq : {a b : NodeInfo} → some a ≡ some b → a ≡ b
some_eq e = cc

zero-suc : (i : ℕ) → some zero ≡ some (suc i) → ⊥
zero-suc i e = absurd (omega (arith, some_number e))
  where
    some_number : some zero ≡ some (suc i) → zero ≡ suc i
    some_number e = cc

index_pred : (m : Option ℕ) (i : ℕ) → Option.map suc m ≡ some (suc i) → m ≡ some i
index_pred none i h = cc
index_pred (some k) i h = cc

index_zero : (m : Option ℕ) → Option.map suc m ≡ some zero → ⊥
index_zero none h = cc
index_zero (some k) h = cc

pub matching_node_index-contains :
    (line : Bytes) (n : List NodeInfo) (i : ℕ) (node : NodeInfo)
    → matching_node_index line n ≡ some i
    → node_at n i ≡ some node
    → contains node.name line ≡ true
unfolding matching_node_index
matching_node_index-contains line [] i node h k = cc
matching_node_index-contains line (a ∷ n) zero node h k = elim (Bool-cases (contains a.name line)) [
  | inl e ↦ subst (λ (b : NodeInfo). contains b.name line ≡ true) (some_eq k) e
  | inr e ↦ absurd (index_zero (matching_node_index line n) (rw e at h))
]
matching_node_index-contains line (a ∷ n) (suc i) node h k =
    elim (Bool-cases (contains a.name line)) [
      | inl e ↦ absurd (zero-suc i (rw e at h))
      | inr e ↦
          matching_node_index-contains line n i node
            (index_pred (matching_node_index line n) i (rw e at h)) k
    ]
