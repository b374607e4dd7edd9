-- ===== src/Query/Amount/Exact.antt =====
-- A formatted amount of internal/query/token.go stands for the same number as the raw one.
use solana_dashboard.Common.{
  ℕ, zero, suc, ◌+◌, ◌-◌, ◌≤◌, ◌<◌, ◌≡◌, refl, sym, ap, ◌∙◌, subst, Bool, true, false, some, List,
  [], ◌∷◌, ◌++◌, ◌==◌, leb, length, take, drop, arith, Bool-cases, inl, inr, take-append-drop,
  length-append,
}
use solana_dashboard.Common.Int.{ℤ, pos, pos_part, leb_ℤ}
use solana_dashboard.Query.Amount.{
  BigInt, repeat, trim_right, is_zero_text, padded, pointed, or_zero, signed, scaled_text,
  format_amount,
}
use solana_dashboard.Query.Amount.Read.{
  read_fraction, read_units, read_amount, digits_value, AllDigits, nil-cases, read_fraction-trim,
  read_fraction-digits, digits_value-append, read_units-point, read_units-end, trim_zeros,
  trim_point-end, trim_point-kept, AllDigits-trim, AllDigits-take, AllDigits-drop,
}

-- A text that does not start with a minus sign.
abbrev Starts : List ℕ → Type 0
Starts [] = Unit
Starts (c ∷ cs) = (c == 45) ≡ false

Starts-digits : (xs ys : List ℕ) → AllDigits xs → Starts (xs ++ 46 ∷ ys)
Starts-digits [] ys d = refl
Starts-digits (x ∷ xs) ys (d, ds) = ground arith

AllDigits-Starts : (xs : List ℕ) → AllDigits xs → Starts xs
AllDigits-Starts [] d = tt
AllDigits-Starts (x ∷ xs) (d, ds) = ground arith

length-drop : (n : ℕ) (xs : List ℕ) → n ≤ length xs → length (drop n xs) ≡ length xs - n
length-drop zero xs h = omega arith
length-drop (suc n) [] h = absurd (omega arith)
length-drop (suc n) (x ∷ xs) h = omega (arith, length-drop n xs (omega arith))

-- The value of digits that are cut in two, the second part being the fraction.
cut_value :
    (n : ℕ) (xs : List ℕ)
    → read_fraction (digits_value 0 (take n xs)) (length (drop n xs)) (drop n xs)
      ≡ digits_value 0 xs
cut_value n xs =
    read_fraction-digits (drop n xs) (digits_value 0 (take n xs))
    ∙ sym (digits_value-append (take n xs) (drop n xs) 0)
    ∙ ap (digits_value 0) (take-append-drop n xs)

module _ (whole fraction : List ℕ) (dw : AllDigits whole) (df : AllDigits fraction) where
  abbrev trimmed : List ℕ
  trimmed = trim_right 46 (trim_right 48 (whole ++ 46 ∷ fraction))

  trimmed_lem :
      (read_units 0 (length fraction) trimmed
        ≡ read_fraction (digits_value 0 whole) (length fraction) fraction)
      × Starts trimmed
  trimmed_lem = elim (nil-cases (trim_right 48 fraction)) [
    | inl t ↦
        let cut : trimmed ≡ whole =
          ap (trim_right 46) (trim_zeros whole fraction ∙ ap (λ zs. whole ++ 46 ∷ zs) t)
          ∙ trim_point-end whole dw in
        (
          ap (read_units 0 (length fraction)) cut
              ∙ read_units-end whole 0 (length fraction) dw
              ∙ ap (read_fraction (digits_value 0 whole) (length fraction)) (sym t)
              ∙ read_fraction-trim fraction (digits_value 0 whole) (length fraction),
          subst Starts (sym cut) (AllDigits-Starts whole dw),
        )
    | inr n ↦
        let kept : trimmed ≡ whole ++ 46 ∷ trim_right 48 fraction =
          ap (trim_right 46) (trim_zeros whole fraction)
          ∙ trim_point-kept whole (trim_right 48 fraction) dw (AllDigits-trim fraction df) n in
        (
          ap (read_units 0 (length fraction)) kept
              ∙ read_units-point whole (trim_right 48 fraction) 0 (length fraction) dw
              ∙ read_fraction-trim fraction (digits_value 0 whole) (length fraction),
          subst Starts (sym kept) (Starts-digits whole (trim_right 48 fraction) dw),
        )
  ]

AllDigits-repeat : (n : ℕ) (xs : List ℕ) → AllDigits xs → AllDigits (repeat 48 n ++ xs)
AllDigits-repeat zero xs d = d
AllDigits-repeat (suc n) xs d = ((omega arith, omega arith), AllDigits-repeat n xs d)

digits_value-repeat : (n : ℕ) (xs : List ℕ) → digits_value 0 (repeat 48 n ++ xs) ≡ digits_value 0 xs
digits_value-repeat zero xs = refl
digits_value-repeat (suc n) xs = digits_value-repeat n xs

length-repeat : (n : ℕ) → length (repeat 48 n) ≡ n
length-repeat zero = refl
length-repeat (suc n) = ap suc (length-repeat n)

module _ (scale : ℕ) (digits : List ℕ) where
  AllDigits-padded : AllDigits digits → AllDigits (padded scale digits)
  unfolding padded
  AllDigits-padded d = elim (Bool-cases (leb (length digits) scale)) [
    | inl e ↦ rw e (AllDigits-repeat (scale - length digits + 1) digits d)
    | inr e ↦ rw e d
  ]

  padded-value : digits_value 0 (padded scale digits) ≡ digits_value 0 digits
  unfolding padded
  padded-value = elim (Bool-cases (leb (length digits) scale)) [
    | inl e ↦ rw e (digits_value-repeat (scale - length digits + 1) digits)
    | inr e ↦ rw e
  ]

  padded-length : scale < length (padded scale digits)
  unfolding padded
  padded-length = elim (Bool-cases (leb (length digits) scale)) [
    | inl e ↦ rw e (
        omega (
          arith,
          length-append (repeat 48 (scale - length digits + 1)) digits,
          length-repeat (scale - length digits + 1),
        ))
    | inr e ↦ rw e (ground (arith, e))
  ]

pointed_lem :
    (scale : ℕ) (digits : List ℕ)
    → AllDigits digits
    → scale < length digits
    → (read_units 0 scale (pointed scale digits) ≡ digits_value 0 digits)
      × Starts (pointed scale digits)
unfolding pointed
pointed_lem scale digits d h =
    let n = length digits - scale in
    let places : length (drop n digits) ≡ scale =
      omega (arith, length-drop n digits (omega arith)) in
    let (value, starts) =
      trimmed_lem (take n digits) (drop n digits) (AllDigits-take n digits d)
        (AllDigits-drop n digits d) in
    (
      ap (λ k. read_units 0 k (pointed scale digits)) (sym places) ∙ value ∙ cut_value n digits,
      starts,
    )

or_zero_lem :
    (scale : ℕ) (f : List ℕ)
    → Starts f
    → (read_units 0 scale (or_zero f) ≡ read_units 0 scale f) × Starts (or_zero f)
unfolding or_zero
or_zero_lem zero [] s = (refl, refl)
or_zero_lem (suc scale) [] s = (refl, refl)
or_zero_lem scale (c ∷ cs) s = (refl, s)

no_fraction : (places : ℕ) → read_fraction 0 places [] ≡ 0
no_fraction zero = refl
no_fraction (suc places) = no_fraction places

zero_text : (scale : ℕ) (f : List ℕ) → is_zero_text f ≡ true → read_units 0 scale f ≡ 0
zero_text scale [] e = absurd (ground (arith, e))
zero_text scale (c ∷ []) e =
    let at : c ≡ 48 = ground (arith, e) in
    ap (λ d. read_units 0 scale (d ∷ [])) at ∙ no_fraction scale
zero_text scale (c ∷ d ∷ cs) e = absurd (ground (arith, e))

read_amount-plain :
    (scale : ℕ) (f : List ℕ) → Starts f → read_amount scale f ≡ (false, read_units 0 scale f)
read_amount-plain zero [] s = refl
read_amount-plain (suc scale) [] s = ap (λ n. (false, n)) (sym (no_fraction scale))
read_amount-plain scale (c ∷ cs) s = rw s refl

signed_lem :
    (scale : ℕ) (negative : Bool) (f : List ℕ)
    → Starts f
    → (negative ≡ true → 1 ≤ read_units 0 scale f)
    → read_amount scale (signed negative f) ≡ (negative, read_units 0 scale f)
unfolding signed
signed_lem scale false f s h = read_amount-plain scale f s
signed_lem scale true f s h = elim (Bool-cases (is_zero_text f)) [
  | inr e ↦ rw e refl
  | inl e ↦ absurd (omega (arith, zero_text scale f e, h refl))
]

-- A raw amount that is an integer, and not a negative zero, is written with its decimals, at least
-- one, so that it reads back as the same number of units, with the same sign. Of the decimal text of
-- the magnitude it is asked that it has digits only, which stand for the magnitude.
pub format_amount-read_amount :
    (big : BigInt) (c : ℕ) (raw : List ℕ) (decimals : ℤ) (negative : Bool) (magnitude : ℕ)
    → leb_ℤ decimals (pos 0) ≡ false
    → big.set_string (c ∷ raw) ≡ some (negative, magnitude)
    → AllDigits (big.text_of magnitude)
    → digits_value 0 (big.text_of magnitude) ≡ magnitude
    → (negative ≡ true → 1 ≤ magnitude)
    → read_amount (pos_part decimals) (format_amount big (c ∷ raw) (some decimals))
      ≡ (negative, magnitude)
unfolding format_amount scaled_text
format_amount-read_amount big c raw decimals negative magnitude places number digits value sign =
    let scale = pos_part decimals in
    let text = padded scale (big.text_of magnitude) in
    let (same, starts) =
      pointed_lem scale text (AllDigits-padded scale (big.text_of magnitude) digits)
        (padded-length scale (big.text_of magnitude)) in
    let (zeroed, starts') = or_zero_lem scale (pointed scale text) starts in
    let units : read_units 0 scale (or_zero (pointed scale text)) ≡ magnitude =
      zeroed ∙ same ∙ padded-value scale (big.text_of magnitude) ∙ value in
    rw (places, number)
      (signed_lem scale negative (or_zero (pointed scale text)) starts'
          (λ n. omega (arith, units, sign n))
        ∙ ap (λ u. (negative, u)) units)
