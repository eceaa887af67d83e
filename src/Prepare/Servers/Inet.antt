-- ===== src/Prepare/Servers/Inet.antt =====
-- prepare.go: `ParseIPv4Address`, the expression
-- `(?m)^\s+inet\s+(\d+[.]\d+[.]\d+[.]\d+/\d+)\s`. No repetition of it can give back a byte, since
-- the next part cannot begin with one; so each takes all that it can.
use lazyjack.Base.{
  ℕ, Bytes, [], ◌∷◌, ◌++◌, Bool, true, ◌||◌, Option, none, some, if◌then◌else◌, ◌==◌, str,
  has_prefix, drop_prefix,
}
use lazyjack.Validate.Token.{is_digit}

-- `\s`
is_blank : ℕ → Bool
is_blank c = c == 32 || c == 9 || c == 10 || c == 12 || c == 13

skip_blanks : Bytes → Bytes
skip_blanks [] = []
skip_blanks (c ∷ s) = if is_blank c then skip_blanks s else c ∷ s

-- `\s+`
blanks : Bytes → Option Bytes
unfolding skip_blanks is_blank
blanks [] = none
blanks (c ∷ s) = if is_blank c then some (skip_blanks s) else none

-- `\d*`, with what was matched and what is left.
more_digits : Bytes → Bytes → Bytes × Bytes
more_digits done [] = (done, [])
more_digits done (c ∷ s) =
    let rest = more_digits (done ++ c ∷ []) s in if is_digit c then rest else (done, c ∷ s)

-- `\d+`
some_digits : Bytes × Bytes → Option (Bytes × Bytes)
unfolding more_digits
some_digits (done, []) = none
some_digits (done, c ∷ s) = if is_digit c then some (more_digits (done ++ c ∷ []) s) else none

-- One given byte.
one : ℕ → Bytes × Bytes → Option (Bytes × Bytes)
one b (done, []) = none
one b (done, c ∷ s) = if c == b then some (done ++ c ∷ [], s) else none

infixl 5 ◌>=>◌
abbrev ◌>=>◌ : {A B : Type 0} → Option A → (A → Option B) → Option B
none >=> f = none
some a >=> f = f a

-- The group and the blank behind it.
address_at : Bytes → Option Bytes
unfolding some_digits one blanks
address_at s =
    some_digits ([], s)
    >=> one b'.'
    >=> some_digits
    >=> one b'.'
    >=> some_digits
    >=> one b'.'
    >=> some_digits
    >=> one b'/'
    >=> some_digits
    >=> λ (done, rest). blanks rest >=> λ _. some done

-- The expression behind `^`.
inet_at : Bytes → Option Bytes
unfolding address_at blanks
inet_at s =
    blanks s
    >=> (λ t. if has_prefix (str "inet") t then some (drop_prefix (str "inet") t) else none)
    >=> blanks
    >=> address_at

-- The first line start at which it matches; the flag says that the position is one.
find_inet : Bool → Bytes → Option Bytes
unfolding inet_at
find_inet start [] = none
find_inet start (c ∷ s) = elim (if start then inet_at (c ∷ s) else none) [
  | some a ↦ some a
  | none ↦ find_inet (c == 10) s
]

unfoldable pub parse_ipv4_address : Bytes → Bytes
unfolding find_inet
parse_ipv4_address if_config = elim (find_inet true if_config) [ none ↦ [] | some a ↦ a ]
