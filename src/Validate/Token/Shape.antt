-- ===== src/Validate/Token/Shape.antt =====
-- The texts that `ValidateToken` and `ValidateTokenCertHash` accept.
use lazyjack.Base.{
  ℕ, zero, suc, Bytes, [], ◌∷◌, ◌++◌, ◌≡◌, ◌↔◌, ◌⊎◌, inl, inr, refl, sym, ◌∙◌, ap, subst, Bool,
  true, false, not, Option, none, some, arith, All, ◌==◌, if◌then◌else◌, Bool-cases, Result, ok,
  err, Done,
}
use lazyjack.Base.Affix.{size, size-append}
use lazyjack.Validate.Token.{
  is_token_char, is_hex_char, match_times, ends, after_dot, token_matches, hash_matches,
  validate_token, validate_token_cert_hash,
}
use mathlib.Core.List.{append-nil}

abbrev pub AllIn : (ℕ → Bool) → Bytes → Type 0
AllIn class = All (λ c. class c ≡ true)

-- Six characters, a dot and sixteen characters.
pub record IsToken (s : Bytes) : Type 0 where
  pub head : Bytes
  pub tail : Bytes
  pub parts : s ≡ head ++ b'.' ∷ tail
  pub head_size : size head ≡ 6
  pub tail_size : size tail ≡ 16
  pub head_chars : AllIn is_token_char head
  pub tail_chars : AllIn is_token_char tail

match_times_sound :
    (class : ℕ → Bool) (n : ℕ) (s r : Bytes)
    → match_times class n s ≡ some r
    → (p : Bytes) × (s ≡ p ++ r) × (size p ≡ n) × AllIn class p
unfolding match_times
match_times_sound class zero s r h = ([], cc, refl, tt)
match_times_sound class (suc n) [] r h = cc
match_times_sound class (suc n) (c ∷ s) r h = elim (Bool-cases (class c)) [
  | inl e ↦
      let (p, a, b, all) = match_times_sound class n s r (rw e at h) in
      (c ∷ p, ap (◌∷◌ c) a, ap suc b, (e, all))
  | inr e ↦ cc (rw e at h)
]

match_times_complete :
    (class : ℕ → Bool) (p r : Bytes) → AllIn class p → match_times class (size p) (p ++ r) ≡ some r
unfolding match_times
match_times_complete class [] r h = refl
match_times_complete class (c ∷ p) r (e, h) = rw e (match_times_complete class p r h)

ends_iff : (o : Option Bytes) → (ends o ≡ true) ↔ (o ≡ some [])
unfolding ends
ends_iff none = ground arith
ends_iff (some []) = ground arith
ends_iff (some (c ∷ s)) = ground arith

after_dot_sound :
    (o : Option Bytes)
    → after_dot o ≡ true
    → (q : Bytes) × (o ≡ some (b'.' ∷ q)) × (match_times is_token_char 16 q ≡ some [])
unfolding after_dot
after_dot_sound none h = cc
after_dot_sound (some []) h = cc
after_dot_sound (some (c ∷ s)) h =
    (s, ground arith, (ends_iff (match_times is_token_char 16 s)).0 (ground arith))

after_dot_complete :
    (q : Bytes) → size q ≡ 16 → AllIn is_token_char q → after_dot (some (b'.' ∷ q)) ≡ true
unfolding after_dot
after_dot_complete q h all = (ends_iff (match_times is_token_char 16 q)).1 (
    subst (λ r. match_times is_token_char 16 r ≡ some []) (append-nil q)
      (subst (λ n. match_times is_token_char n (q ++ []) ≡ some []) h
        (match_times_complete is_token_char q [] all)))

token_matches_iff : (s : Bytes) → (token_matches s ≡ true) ↔ IsToken s
unfolding token_matches
token_matches_iff s = (sound, complete)
  where
    sound : after_dot (match_times is_token_char 6 s) ≡ true → IsToken s
    sound h =
        let (q, e, f) = after_dot_sound (match_times is_token_char 6 s) h in
        let (p, a, b, all) = match_times_sound is_token_char 6 s (b'.' ∷ q) e in
        let (q', a', b', all') = match_times_sound is_token_char 16 q [] f in
        let same : q' ≡ q = sym (append-nil q') ∙ sym a' in
        record {
          head = p;
          tail = q;
          parts = a;
          head_size = b;
          tail_size = ap size (sym same) ∙ b';
          head_chars = all;
          tail_chars = rw same at all';
        }

    complete : IsToken s → after_dot (match_times is_token_char 6 s) ≡ true
    complete t =
        rw
          (
            t.parts,
            ← t.head_size,
            match_times_complete is_token_char (t.head) (b'.' ∷ t.tail) (t.head_chars),
          )
          (after_dot_complete (t.tail) (t.tail_size) (t.tail_chars))

-- The length that a match has already is no further condition.
IsToken-size : (s : Bytes) → IsToken s → size s ≡ 23
IsToken-size s t =
    ap size (t.parts)
    ∙ omega (arith, size-append (t.head) (b'.' ∷ t.tail), t.head_size, t.tail_size)

IsToken-ne-nil : IsToken [] → ⊥
IsToken-ne-nil t = absurd (omega (arith, IsToken-size [] t))

-- A token is accepted exactly if it is empty and may be missing, or consists of six and sixteen
-- lower-case letters or digits with a dot between them.
pub validate_token_iff :
    (token : Bytes) (ignore_missing : Bool)
    → (validate_token token ignore_missing ≡ ok tt)
      ↔ ((token ≡ []) × (ignore_missing ≡ true)) ⊎ IsToken token
unfolding validate_token
validate_token_iff [] true = (λ h. inl (refl, refl), λ h. refl)
validate_token_iff [] false =
    (λ h. cc, λ h. elim h [ inl (a, b) ↦ cc | inr t ↦ absurd (IsToken-ne-nil t) ])
validate_token_iff (b ∷ s) ignore_missing =
    let shape = token_matches_iff (b ∷ s) in
    (
      λ h. inr (shape.0 (ground arith)),
      λ h. elim h [ inl (a, _) ↦ cc | inr t ↦ ground (arith, shape.1 t, IsToken-size (b ∷ s) t) ],
    )

-- A hash is 64 hexadecimal digits.
pub record IsHash (s : Bytes) : Type 0 where
  pub hash_size : size s ≡ 64
  pub hash_chars : AllIn is_hex_char s

hash_matches_iff : (s : Bytes) → (hash_matches s ≡ true) ↔ IsHash s
unfolding hash_matches
hash_matches_iff s = (
  λ h.
      let (p, a, b, all) =
        match_times_sound is_hex_char 64 s [] ((ends_iff (match_times is_hex_char 64 s)).0 h) in
      let same : p ≡ s = sym (append-nil p) ∙ sym a in
      record { hash_size = ap size (sym same) ∙ b; hash_chars = rw same at all },
  λ t. (ends_iff (match_times is_hex_char 64 s)).1 (
      subst (λ r. match_times is_hex_char 64 r ≡ some []) (append-nil s)
        (subst (λ n. match_times is_hex_char n (s ++ []) ≡ some []) (t.hash_size)
          (match_times_complete is_hex_char s [] (t.hash_chars)))),
)

-- The two tests of `ValidateTokenCertHash`, by their values.
abbrev hash_tests : ℕ → Bool → Bytes → Bytes → Result Done
hash_tests n m e f = if not (n == 64) then err e else if not m then err f else ok tt

hash_accepted : (n : ℕ) (m : Bool) (e f : Bytes) → n ≡ 64 → m ≡ true → hash_tests n m e f ≡ ok tt
hash_accepted n m e f h k = ground arith

hash_needed : (n : ℕ) (m : Bool) (e f : Bytes) → hash_tests n m e f ≡ ok tt → m ≡ true
hash_needed n m e f h = ground arith

-- A hash is accepted exactly if it is empty and may be missing, or consists of 64 hexadecimal
-- digits.
pub validate_token_cert_hash_iff :
    (hash : Bytes) (ignore_missing : Bool)
    → (validate_token_cert_hash hash ignore_missing ≡ ok tt)
      ↔ ((hash ≡ []) × (ignore_missing ≡ true)) ⊎ IsHash hash
unfolding validate_token_cert_hash
validate_token_cert_hash_iff [] true = (λ h. inl (refl, refl), λ h. refl)
validate_token_cert_hash_iff [] false =
    (λ h. cc, λ h. elim h [ inl (a, b) ↦ cc | inr t ↦ absurd (omega (arith, t.hash_size)) ])
validate_token_cert_hash_iff (b ∷ s) ignore_missing =
    let shape = hash_matches_iff (b ∷ s) in
    (
      λ h. inr (shape.0 (hash_needed (size (b ∷ s)) (hash_matches (b ∷ s)) _ _ h)),
      λ h. elim h [
        | inl (a, _) ↦ cc
        | inr t ↦ hash_accepted (size (b ∷ s)) (hash_matches (b ∷ s)) _ _ (t.hash_size) (shape.1 t)
      ],
    )
