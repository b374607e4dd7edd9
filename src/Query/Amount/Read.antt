-- ===== src/Query/Amount/Read.antt =====
-- Reading a formatted amount back.
use solana_dashboard.Common.{
  ℕ, zero, suc, ◌+◌, ◌-◌, ◌*◌, ◌≤◌, ◌≡◌, refl, sym, ap, ◌∙◌, Bool, true, false, ◌&&◌, List, [], ◌∷◌,
  ◌++◌, ◌==◌, if◌then◌else◌, length, take, drop, arith, Bool-cases, inl, inr, ◌⊎◌,
}
use solana_dashboard.Query.Amount.{is_nil, trim_right}

-- The digits after the point, of which `places` are still to come: the ones that are not there are
-- zeros.
abbrev pub read_fraction : ℕ → ℕ → List ℕ → ℕ
read_fraction read zero cs = read
read_fraction read (suc places) [] = read_fraction (read * 10) places []
read_fraction read (suc places) (c ∷ cs) = read_fraction (read * 10 + (c - 48)) places cs

-- The number of units that a decimal text stands for, at so many decimal places to a unit.
abbrev pub read_units : ℕ → ℕ → List ℕ → ℕ
read_units read places [] = read_fraction read places []
read_units read places (c ∷ cs) =
    let rest = read_units (read * 10 + (c - 48)) places cs in
    if c == 46 then read_fraction read places cs else rest

-- With a sign.
abbrev pub read_amount : ℕ → List ℕ → Bool × ℕ
read_amount places [] = (false, 0)
read_amount places (c ∷ cs) =
    if c == 45 then (true, read_units 0 places cs) else (false, read_units 0 places (c ∷ cs))

-- The number that digits stand for.
abbrev pub digits_value : ℕ → List ℕ → ℕ
digits_value read [] = read
digits_value read (c ∷ cs) = digits_value (read * 10 + (c - 48)) cs

abbrev pub IsDigit : ℕ → Type 0
IsDigit c = (48 ≤ c) × (c ≤ 57)

abbrev pub AllDigits : List ℕ → Type 0
AllDigits [] = Unit
AllDigits (c ∷ cs) = IsDigit c × AllDigits cs

zero_more : (read x : ℕ) → (x == 48) ≡ true → read * 10 ≡ read * 10 + (x - 48)
zero_more read x e = ground arith

pub nil-cases : (xs : List ℕ) → (xs ≡ []) ⊎ (is_nil xs ≡ false)
nil-cases [] = inl refl
nil-cases (x ∷ xs) = inr refl

trim_right-all :
    (c x : ℕ) (xs : List ℕ) → trim_right c xs ≡ [] → (x == c) ≡ true → trim_right c (x ∷ xs) ≡ []
trim_right-all c x xs t e = rw (t, e) refl

trim_right-kept :
    (c x : ℕ) (xs : List ℕ)
    → (is_nil (trim_right c xs) && (x == c)) ≡ false
    → trim_right c (x ∷ xs) ≡ x ∷ trim_right c xs
trim_right-kept c x xs h = rw h refl

pub read_fraction-trim :
    (xs : List ℕ) (read places : ℕ)
    → read_fraction read places (trim_right 48 xs) ≡ read_fraction read places xs
read_fraction-trim [] read places = refl
read_fraction-trim (x ∷ xs) read zero = refl
read_fraction-trim (x ∷ xs) read (suc places) =
    let rest = read_fraction-trim xs (read * 10 + (x - 48)) places in
    elim (Bool-cases (is_nil (trim_right 48 xs) && (x == 48))) [
      | inr e ↦ ap (read_fraction read (suc places)) (trim_right-kept 48 x xs e) ∙ rest
      | inl e ↦ elim (nil-cases (trim_right 48 xs)) [
        | inr n ↦ absurd (ground (arith, e, n))
        | inl t ↦
            let zero_digit : (x == 48) ≡ true = ground (arith, e) in
            ap (read_fraction read (suc places)) (trim_right-all 48 x xs t zero_digit)
            ∙ ap (λ r. read_fraction r places []) (zero_more read x zero_digit)
            ∙ ap (read_fraction (read * 10 + (x - 48)) places) (sym t)
            ∙ rest
      ]
    ]

pub read_fraction-digits :
    (xs : List ℕ) (read : ℕ) → read_fraction read (length xs) xs ≡ digits_value read xs
read_fraction-digits [] read = refl
read_fraction-digits (x ∷ xs) read = read_fraction-digits xs (read * 10 + (x - 48))

pub digits_value-append :
    (xs ys : List ℕ) (read : ℕ)
    → digits_value read (xs ++ ys) ≡ digits_value (digits_value read xs) ys
digits_value-append [] ys read = refl
digits_value-append (x ∷ xs) ys read = digits_value-append xs ys (read * 10 + (x - 48))

-- Digits before a point, or before the end.
pub read_units-point :
    (xs ys : List ℕ) (read places : ℕ)
    → AllDigits xs
    → read_units read places (xs ++ 46 ∷ ys) ≡ read_fraction (digits_value read xs) places ys
read_units-point [] ys read places d = refl
read_units-point (x ∷ xs) ys read places (d, ds) =
    ground (arith, read_units-point xs ys (read * 10 + (x - 48)) places ds)

pub read_units-end :
    (xs : List ℕ) (read places : ℕ)
    → AllDigits xs
    → read_units read places xs ≡ read_fraction (digits_value read xs) places []
read_units-end [] read places d = refl
read_units-end (x ∷ xs) read places (d, ds) =
    ground (arith, read_units-end xs (read * 10 + (x - 48)) places ds)

-- What is left of a text with a point when its last zeros go.
pub trim_zeros : (xs ys : List ℕ) → trim_right 48 (xs ++ 46 ∷ ys) ≡ xs ++ 46 ∷ trim_right 48 ys
trim_zeros [] ys = ground arith
trim_zeros (x ∷ xs) ys = ground (arith, trim_zeros xs ys, nonempty xs (trim_right 48 ys))
  where
    nonempty : (xs ys : List ℕ) → is_nil (xs ++ 46 ∷ ys) ≡ false
    nonempty [] ys = refl
    nonempty (x ∷ xs) ys = refl

trim_point-digits : (xs : List ℕ) → AllDigits xs → trim_right 46 xs ≡ xs
trim_point-digits [] d = refl
trim_point-digits (x ∷ xs) (d, ds) = ground (arith, trim_point-digits xs ds)

pub trim_point-end : (xs : List ℕ) → AllDigits xs → trim_right 46 (xs ++ 46 ∷ []) ≡ xs
trim_point-end [] d = refl
trim_point-end (x ∷ xs) (d, ds) = ground (arith, trim_point-end xs ds)

pub trim_point-kept :
    (xs ys : List ℕ)
    → AllDigits xs
    → AllDigits ys
    → is_nil ys ≡ false
    → trim_right 46 (xs ++ 46 ∷ ys) ≡ xs ++ 46 ∷ ys
trim_point-kept [] ys d e n = ground (arith, trim_point-digits ys e, n)
trim_point-kept (x ∷ xs) ys (d, ds) e n = ground (arith, trim_point-kept xs ys ds e n)

pub AllDigits-trim : (xs : List ℕ) → AllDigits xs → AllDigits (trim_right 48 xs)
AllDigits-trim [] d = tt
AllDigits-trim (x ∷ xs) (d, ds) = elim (Bool-cases (is_nil (trim_right 48 xs) && (x == 48))) [
  | inl e ↦ rw e tt
  | inr e ↦ rw e (d, AllDigits-trim xs ds)
]

pub AllDigits-take : (n : ℕ) (xs : List ℕ) → AllDigits xs → AllDigits (take n xs)
AllDigits-take zero xs d = tt
AllDigits-take (suc n) [] d = tt
AllDigits-take (suc n) (x ∷ xs) (d, ds) = (d, AllDigits-take n xs ds)

pub AllDigits-drop : (n : ℕ) (xs : List ℕ) → AllDigits xs → AllDigits (drop n xs)
AllDigits-drop zero xs d = d
AllDigits-drop (suc n) [] d = tt
AllDigits-drop (suc n) (x ∷ xs) (d, ds) = AllDigits-drop n xs ds
