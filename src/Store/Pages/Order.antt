-- ===== src/Store/Pages/Order.antt =====
-- The order of the rows of token_activity_events, in nanoseconds and in seconds.
use solana_dashboard.Common.{
  ◌≡◌, sym, ◌∙◌, true, false, ◌&&◌, ◌||◌, List, [], ◌∷◌, arith, Bool-cases, inl, inr, map, ltb,
  ◌==◌,
}
use mathlib.Core.List.{Perm}
use mathlib.Core.List.Perm
use solana_dashboard.Common.Int.{ℤ, eqb_ℤ, ltb_ℤ}
use solana_dashboard.Store.ReadModel.{scale}
use solana_dashboard.Store.Pages.Follow.{AllBelow, Descends}
use solana_dashboard.Store.{ActivityEventRecord}
use solana_dashboard.Store.Pages.{
  ActivityEventCursor, cursor_of, is_less, is_below, seconds_of, listed_row, place, newest_first,
}

is_less_trans :
    (a b c : ActivityEventCursor) → is_less a b ≡ true → is_less b c ≡ true → is_less a c ≡ true
unfolding is_less
is_less_trans a b c h g = ground arith

is_less-asym : (a b : ActivityEventCursor) → is_less a b ≡ true → is_less b a ≡ false
unfolding is_less
is_less-asym a b h = ground arith

is_less_irrefl : (a : ActivityEventCursor) → is_less a a ≡ false
unfolding is_less
is_less_irrefl a = ground arith

is_less-total :
    (a b : ActivityEventCursor)
    → is_less a b ≡ false
    → eqb_ℤ a.insert_seq b.insert_seq ≡ false
    → is_less b a ≡ true
unfolding is_less
is_less-total a b h g = ground arith

-- No two rows have the same number in insert_seq.
abbrev pub OtherSeq : ActivityEventRecord → List ActivityEventRecord → Type 0
OtherSeq x [] = Unit
OtherSeq x (y ∷ ys) = (eqb_ℤ x.insert_seq y.insert_seq ≡ false) × OtherSeq x ys

abbrev pub DistinctSeqs : List ActivityEventRecord → Type 0
DistinctSeqs [] = Unit
DistinctSeqs (x ∷ xs) = OtherSeq x xs × DistinctSeqs xs

-- The order by the listed rows.
abbrev Below : ActivityEventRecord → List ActivityEventRecord → Type 0
Below x [] = Unit
Below x (y ∷ ys) = (is_less (cursor_of y) (cursor_of x) ≡ true) × Below x ys

abbrev pub Sorted : List ActivityEventRecord → Type 0
Sorted [] = Unit
Sorted (x ∷ xs) = Below x xs × Sorted xs

Below-trans :
    (x y : ActivityEventRecord) (ys : List ActivityEventRecord)
    → is_less (cursor_of y) (cursor_of x) ≡ true
    → Below y ys
    → Below x ys
Below-trans x y [] h b = tt
Below-trans x y (z ∷ zs) h (b, bs) =
    (is_less_trans (cursor_of z) (cursor_of y) (cursor_of x) b h, Below-trans x y zs h bs)

Below-place :
    (x y : ActivityEventRecord) (ys : List ActivityEventRecord)
    → is_less (cursor_of y) (cursor_of x) ≡ true
    → Below x ys
    → Below x (place y ys)
Below-place x y [] h b = (h, tt)
Below-place x y (z ∷ zs) h (b, bs) = elim (Bool-cases (is_less (cursor_of y) (cursor_of z))) [
  | inl e ↦ rw e (b, Below-place x y zs h bs)
  | inr e ↦ rw e (h, (b, bs))
]

place-Sorted :
    (x : ActivityEventRecord) (ys : List ActivityEventRecord)
    → OtherSeq x ys
    → Sorted ys
    → Sorted (place x ys)
place-Sorted x [] o s = (tt, tt)
place-Sorted x (y ∷ ys) (o, os) (b, s) = elim (Bool-cases (is_less (cursor_of x) (cursor_of y))) [
  | inl e ↦ rw e (Below-place y x ys e b, place-Sorted x ys os s)
  | inr e ↦
      let above = is_less-total (cursor_of x) (cursor_of y) e o in
      rw e ((above, Below-trans x y ys above b), (b, s))
]

OtherSeq-place :
    (x y : ActivityEventRecord) (ys : List ActivityEventRecord)
    → eqb_ℤ x.insert_seq y.insert_seq ≡ false
    → OtherSeq x ys
    → OtherSeq x (place y ys)
OtherSeq-place x y [] h o = (h, tt)
OtherSeq-place x y (z ∷ zs) h (o, os) = elim (Bool-cases (is_less (cursor_of y) (cursor_of z))) [
  | inl e ↦ rw e (o, OtherSeq-place x y zs h os)
  | inr e ↦ rw e (h, (o, os))
]

OtherSeq-newest_first :
    (x : ActivityEventRecord) (ys : List ActivityEventRecord)
    → OtherSeq x ys
    → OtherSeq x (newest_first ys)
OtherSeq-newest_first x [] o = tt
OtherSeq-newest_first x (y ∷ ys) (o, os) =
    OtherSeq-place x y (newest_first ys) o (OtherSeq-newest_first x ys os)

pub newest_first-Sorted :
    (xs : List ActivityEventRecord) → DistinctSeqs xs → Sorted (newest_first xs)
newest_first-Sorted [] d = tt
newest_first-Sorted (x ∷ xs) (o, d) =
    place-Sorted x (newest_first xs) (OtherSeq-newest_first x xs o) (newest_first-Sorted xs d)

-- A time of whole seconds, as those that are stored from seconds.
abbrev pub IsWhole : ActivityEventRecord → Type 0
IsWhole row = scale 1000000000 (seconds_of row.event_unix_ts) ≡ row.event_unix_ts

abbrev pub AllWhole : List ActivityEventRecord → Type 0
AllWhole [] = Unit
AllWhole (x ∷ xs) = IsWhole x × AllWhole xs

ltb_ℤ-scale : (a b : ℤ) → ltb_ℤ (scale 1000000000 a) (scale 1000000000 b) ≡ ltb_ℤ a b
ltb_ℤ-scale a b = ground arith

eqb_ℤ-scale : (a b : ℤ) → eqb_ℤ (scale 1000000000 a) (scale 1000000000 b) ≡ eqb_ℤ a b
eqb_ℤ-scale a b = ground arith

-- Whole seconds compare as their nanoseconds do.
is_less-listed :
    (x y : ActivityEventRecord)
    → IsWhole x
    → IsWhole y
    → is_less (cursor_of (listed_row x)) (cursor_of (listed_row y))
      ≡ is_less (cursor_of x) (cursor_of y)
unfolding is_less
is_less-listed x y hx hy =
    let s = seconds_of x.event_unix_ts in
    let u = seconds_of y.event_unix_ts in
    let lt : ltb_ℤ s u ≡ ltb_ℤ x.event_unix_ts y.event_unix_ts =
      sym (ltb_ℤ-scale s u) ∙ (λ i. ltb_ℤ (hx i) (hy i)) in
    let eq : eqb_ℤ s u ≡ eqb_ℤ x.event_unix_ts y.event_unix_ts =
      sym (eqb_ℤ-scale s u) ∙ (λ i. eqb_ℤ (hx i) (hy i)) in
    λ i.
      lt i || (eq i && (ltb x.slot y.slot || (x.slot == y.slot && ltb_ℤ x.insert_seq y.insert_seq)))

AllWhole-place :
    (x : ActivityEventRecord) (ys : List ActivityEventRecord)
    → IsWhole x
    → AllWhole ys
    → AllWhole (place x ys)
AllWhole-place x [] h w = (h, tt)
AllWhole-place x (y ∷ ys) h (w, ws) = elim (Bool-cases (is_less (cursor_of x) (cursor_of y))) [
  | inl e ↦ rw e (w, AllWhole-place x ys h ws)
  | inr e ↦ rw e (h, (w, ws))
]

pub AllWhole-newest_first :
    (xs : List ActivityEventRecord) → AllWhole xs → AllWhole (newest_first xs)
AllWhole-newest_first [] w = tt
AllWhole-newest_first (x ∷ xs) (h, w) =
    AllWhole-place x (newest_first xs) h (AllWhole-newest_first xs w)

AllBelow-listed :
    (x : ActivityEventRecord) (ys : List ActivityEventRecord)
    → IsWhole x
    → AllWhole ys
    → Below x ys
    → AllBelow cursor_of is_below (listed_row x) (map listed_row ys)
AllBelow-listed x [] h w b = tt
AllBelow-listed x (y ∷ ys) h (w, ws) (b, bs) = (
  is_less-listed y x w h ∙ b,
  is_less-listed x y h w ∙ is_less-asym (cursor_of y) (cursor_of x) b,
  AllBelow-listed x ys h ws bs,
)

pub Descends-listed :
    (xs : List ActivityEventRecord)
    → AllWhole xs
    → Sorted xs
    → Descends cursor_of is_below (map listed_row xs)
Descends-listed [] w s = tt
Descends-listed (x ∷ xs) (h, w) (b, s) =
    (is_less_irrefl (cursor_of (listed_row x)), AllBelow-listed x xs h w b, Descends-listed xs w s)

place-Perm : (x : ActivityEventRecord) (ys : List ActivityEventRecord) → Perm (place x ys) (x ∷ ys)
place-Perm x [] = Perm.rfl
place-Perm x (y ∷ ys) = elim (Bool-cases (is_less (cursor_of x) (cursor_of y))) [
  | inl e ↦ rw e (Perm.trans (Perm.cons y (place-Perm x ys)) (Perm.swap x y ys))
  | inr e ↦ rw e (Perm.rfl)
]

pub newest_first-Perm : (xs : List ActivityEventRecord) → Perm (newest_first xs) xs
newest_first-Perm [] = Perm.nil
newest_first-Perm (x ∷ xs) =
    Perm.trans (place-Perm x (newest_first xs)) (Perm.cons x (newest_first-Perm xs))
