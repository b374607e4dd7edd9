-- ===== src/Query/Amount.antt =====
-- formatAmount of internal/query/token.go: a raw amount of a token, written with its decimals. A text
-- is the list of its bytes. math/big is a parameter.
pub mod Read
pub mod Exact
use solana_dashboard.Common.{
  ℕ, zero, suc, ◌+◌, ◌-◌, Bool, true, false, not, ◌&&◌, Option, none, some, List, [], ◌∷◌, ◌++◌,
  ◌==◌, leb, if◌then◌else◌, length, take, drop,
}
use solana_dashboard.Common.Int.{ℤ, pos, pos_part, leb_ℤ}

-- SetString in base 10, as a sign and a magnitude, and String of a magnitude.
pub record BigInt : Type 0 where
  pub set_string : List ℕ → Option (Bool × ℕ)
  pub text_of : ℕ → List ℕ

abbrev pub is_nil : List ℕ → Bool
is_nil [] = true
is_nil (x ∷ xs) = false

-- strings.Repeat of one byte
abbrev pub repeat : ℕ → ℕ → List ℕ
repeat c zero = []
repeat c (suc n) = c ∷ repeat c n

-- strings.TrimRight with a set of one byte
abbrev pub trim_right : ℕ → List ℕ → List ℕ
trim_right c [] = []
trim_right c (x ∷ xs) =
    let rest = trim_right c xs in if is_nil rest && (x == c) then [] else x ∷ rest

-- A text that is "0".
abbrev pub is_zero_text : List ℕ → Bool
is_zero_text [] = false
is_zero_text (x ∷ xs) = (x == 48) && is_nil xs

-- At least one digit before the point.
unfoldable pub padded : ℕ → List ℕ → List ℕ
padded scale digits =
    if leb (length digits) scale then repeat 48 (scale - length digits + 1) ++ digits else digits

-- The digits with the point, without the zeros that end them and a point at the end.
unfoldable pub pointed : ℕ → List ℕ → List ℕ
pointed scale digits =
    let point = length digits - scale in
    trim_right 46 (trim_right 48 (take point digits ++ 46 ∷ drop point digits))

unfoldable pub or_zero : List ℕ → List ℕ
or_zero formatted = if is_nil formatted then 48 ∷ [] else formatted

unfoldable pub signed : Bool → List ℕ → List ℕ
signed negative formatted =
    if negative && not (is_zero_text formatted) then 45 ∷ formatted else formatted

unfoldable pub scaled_text : BigInt → ℕ → Bool → ℕ → List ℕ
scaled_text big scale negative magnitude =
    signed negative (or_zero (pointed scale (padded scale (big.text_of magnitude))))

-- formatAmount
unfoldable pub format_amount : BigInt → List ℕ → Option ℤ → List ℕ
format_amount big [] decimals = []
format_amount big (c ∷ raw) none = c ∷ raw
format_amount big (c ∷ raw) (some decimals) =
    if leb_ℤ decimals (pos 0) then c ∷ raw else elim (big.set_string (c ∷ raw)) [
      | none ↦ c ∷ raw
      | some (negative, magnitude) ↦ scaled_text big (pos_part decimals) negative magnitude
    ]
