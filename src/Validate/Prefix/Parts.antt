-- ===== src/Validate/Prefix/Parts.antt =====
-- `MakePrefixFromNetwork` pads a network to its full number of parts.
use lazyjack.Base.{
  ℕ, zero, suc, ◌/◌, ◌-◌, ◌+◌, ◌≤◌, Bytes, List, [], ◌∷◌, ◌++◌, ◌≡◌, ◌≢◌, refl, ◌∙◌, ap, arith,
  false, All, All-append, ltb, str, trim_right,
}
use lazyjack.Base.Split.{split, join, Lacks, split-join, split-Lacks, split-ne-nil}
use lazyjack.Validate.Prefix.{is_colon, count_of, zeros, make_prefix_from_network}
use mathlib.Core.List.{append_assoc}

join-last : (ps : List Bytes) → ps ≢ [] → join b':' ps ++ b':' ∷ [] ≡ join b':' (ps ++ [] ∷ [])
unfolding join
join-last [] h = absurd (h refl)
join-last (p ∷ []) h = refl
join-last (p ∷ q ∷ ps) h =
    append_assoc p (b':' ∷ join b':' (q ∷ ps)) (b':' ∷ [])
    ∙ ap (λ s. p ++ b':' ∷ s) (join-last (q ∷ ps) (λ e. cc))

zeros-Lacks : (n : ℕ) → All (Lacks b':') (zeros n)
unfolding zeros str
zeros-Lacks zero = tt
zeros-Lacks (suc n) = ((omega arith, tt), zeros-Lacks n)

count_of-zeros : (ps : List Bytes) (n : ℕ) → count_of (ps ++ zeros n) ≡ count_of ps + n
unfolding zeros
count_of-zeros [] zero = refl
count_of-zeros [] (suc n) = omega (arith, count_of-zeros [] n)
count_of-zeros (p ∷ ps) n = omega (arith, count_of-zeros ps n)

append-ne-nil : (ps qs : List Bytes) → ps ≢ [] → ps ++ qs ≢ []
append-ne-nil [] qs h = λ _. h refl
append-ne-nil (p ∷ ps) qs h = λ e. cc

-- The parts that the network writes out.
abbrev pub parts_of : Bytes → List Bytes
parts_of network = split b':' (trim_right is_colon network)

-- A part that is written out.
abbrev pub IsWritten : Bytes → Type 0
IsWritten p = p ≢ []

zeros-IsWritten : (n : ℕ) → All IsWritten (zeros n)
unfolding zeros str
zeros-IsWritten zero = tt
zeros-IsWritten (suc n) = (λ e. cc, zeros-IsWritten n)

-- If a network writes out at most the parts that its size needs, and has no empty part but for
-- colons at its end, the prefix consists of its parts and of as many zeros as are missing, and ends with
-- a colon; so it has one part for each 16 bits of the size, and none of them is empty.
pub make_prefix_from_network-split :
    (network : Bytes) (size : ℕ)
    → count_of (parts_of network) ≤ size / 16
    → All IsWritten (parts_of network)
    → (split b':' (make_prefix_from_network network size)
        ≡ (parts_of network ++ zeros (size / 16 - count_of (parts_of network))) ++ [] ∷ [])
      × (count_of (parts_of network ++ zeros (size / 16 - count_of (parts_of network))) ≡ size / 16)
      × All IsWritten (parts_of network ++ zeros (size / 16 - count_of (parts_of network)))
unfolding make_prefix_from_network str
make_prefix_from_network-split network size h written =
    let ps = parts_of network in
    let qs = ps ++ zeros (size / 16 - count_of ps) in
    let small : ltb (size / 16) (count_of ps) ≡ false = ground arith in
    let filled : qs ≢ [] = append-ne-nil ps _ (split-ne-nil b':' (trim_right is_colon network)) in
    let lacks =
      All-append (Lacks b':') qs ([] ∷ [])
        (All-append (Lacks b':') ps _ (split-Lacks b':' (trim_right is_colon network))
          (zeros-Lacks _))
        (tt, tt) in
    (
      rw small (
          ap (split b':') (join-last qs filled)
          ∙ split-join b':' (qs ++ [] ∷ []) (append-ne-nil qs ([] ∷ []) filled) lacks),
      omega (arith, count_of-zeros ps (size / 16 - count_of ps)),
      All-append IsWritten ps _ written (zeros-IsWritten _),
    )
