-- ===== src/Store/Pages/Follow.antt =====
-- Following the cursors of a paged listing: pages of a list whose rows descend, each page the first
-- rows below the last row of the page before.
use solana_dashboard.Common.{
  ℕ, zero, suc, ◌+◌, ◌≤◌, ◌<◌, ◌≡◌, refl, sym, ap, ◌∙◌, Bool, true, false, Option, none, some, List,
  [], ◌∷◌, ◌++◌, if◌then◌else◌, ltb, length, take, drop, arith, append_assoc, append-nil,
  Bool-cases, inl, inr, take-append-drop, subst,
}

-- A page: its rows, and the cursor of the next page if there is one.
pub record Page (R C : Type 0) : Type 0 where
  pub items : List R
  pub has_more : Bool
  pub next_cursor : Option C

module _ {R C : Type 0} (cursor : R → C) (below : R → C → Bool) where
  abbrev last_cursor : List R → Option C
  last_cursor [] = none
  last_cursor (x ∷ []) = some (cursor x)
  last_cursor (x ∷ y ∷ ys) = last_cursor (y ∷ ys)

  -- From the rows that a query for one row more than the limit gives.
  unfoldable pub page_of : ℕ → List R → Page R C
  page_of limit rows =
      let has_more = ltb limit (length rows) in
      let items = if has_more then take limit rows else rows in
      record {
        items = items;
        has_more = has_more;
        next_cursor = if has_more then last_cursor items else none;
      }

  abbrev pub rows_below : Option C → List R → List R
  rows_below none rows = rows
  rows_below (some c) [] = []
  rows_below (some c) (x ∷ xs) =
      let rest = rows_below (some c) xs in if below x c then x ∷ rest else rest

  -- The rows of all pages, from a cursor.
  unfoldable pub follow : ℕ → (Option C → Page R C) → Option C → List R
  follow zero page c = []
  follow (suc fuel) page c =
      let p = page c in
      p.items ++ elim p.next_cursor [ none ↦ [] | some next ↦ follow fuel page (some next) ]

  abbrev pub AllBelow : R → List R → Type 0
  AllBelow x [] = Unit
  AllBelow x (y ∷ ys) = (below y (cursor x) ≡ true) × (below x (cursor y) ≡ false) × AllBelow x ys

  -- Each row is below all rows before it, and none of these is below it.
  abbrev pub Descends : List R → Type 0
  Descends [] = Unit
  Descends (x ∷ xs) = (below x (cursor x) ≡ false) × AllBelow x xs × Descends xs

  all_of : (x : R) (ys : List R) → AllBelow x ys → rows_below (some (cursor x)) ys ≡ ys
  all_of x [] h = refl
  all_of x (y ∷ ys) (h, g, hs) = rw h (ap (λ zs. y ∷ zs) (all_of x ys hs))

  AllBelow-tail :
      (x y : R) (pre suf : List R) → AllBelow x (pre ++ y ∷ suf) → below x (cursor y) ≡ false
  AllBelow-tail x y [] suf (h, g, hs) = g
  AllBelow-tail x y (z ∷ pre) suf (h, g, hs) = AllBelow-tail x y pre suf hs

  -- Below a row of a descending list is what comes after it.
  rows_below-cursor :
      (pre : List R) (x : R) (suf : List R)
      → Descends (pre ++ x ∷ suf)
      → rows_below (some (cursor x)) (pre ++ x ∷ suf) ≡ suf
  rows_below-cursor [] x suf (irr, all, d) = rw irr (all_of x suf all)
  rows_below-cursor (y ∷ pre) x suf (irr, all, d) =
      rw (AllBelow-tail y x pre suf all) (rows_below-cursor pre x suf d)

  take_whole : (n : ℕ) (xs : List R) → length xs ≤ n → take n xs ≡ xs
  take_whole zero [] h = refl
  take_whole zero (x ∷ xs) h = absurd (omega arith)
  take_whole (suc n) [] h = refl
  take_whole (suc n) (x ∷ xs) h = ap (λ ys. x ∷ ys) (take_whole n xs (omega arith))

  take-take : (n : ℕ) (xs : List R) → take n (take (suc n) xs) ≡ take n xs
  take-take zero xs = refl
  take-take (suc n) [] = refl
  take-take (suc n) (x ∷ xs) = ap (λ ys. x ∷ ys) (take-take n xs)

  length-take : (n : ℕ) (xs : List R) → n ≤ length xs → length (take n xs) ≡ n
  length-take zero xs h = refl
  length-take (suc n) [] h = absurd (omega arith)
  length-take (suc n) (x ∷ xs) h = ap suc (length-take n xs (omega arith))

  length-drop : (n : ℕ) (xs : List R) → length xs ≡ length (take n xs) + length (drop n xs)
  length-drop zero xs = omega arith
  length-drop (suc n) [] = omega arith
  length-drop (suc n) (x ∷ xs) = omega (arith, length-drop n xs)

  -- The last row of a page that has rows.
  last_row :
      (xs : List R)
      → 1 ≤ length xs
      → (pre : List R) × (y : R) × (xs ≡ pre ++ y ∷ []) × (last_cursor xs ≡ some (cursor y))
  last_row [] h = absurd (omega arith)
  last_row (x ∷ []) h = ([], x, refl, refl)
  last_row (x ∷ y ∷ ys) h =
      let (pre, z, e, l) = last_row (y ∷ ys) (omega arith) in (x ∷ pre, z, ap (λ zs. x ∷ zs) e, l)

  cut : (pre q xs ys : List R) (y : R) → xs ≡ q ++ y ∷ [] → pre ++ (xs ++ ys) ≡ (pre ++ q) ++ y ∷ ys
  cut pre q xs ys y h =
      ap (λ zs. pre ++ (zs ++ ys)) h
      ∙ ap (λ zs. pre ++ zs) (append_assoc q (y ∷ []) ys)
      ∙ sym (append_assoc pre q (y ∷ ys))

  module _ (limit : ℕ) (positive : 1 ≤ limit) where
    -- The listing of a page: the rows below the cursor, one more than the limit at most.
    abbrev listed : List R → Option C → Page R C
    listed rows c = page_of limit (take (suc limit) (rows_below c rows))

    last_page :
        (xs : List R)
        → length xs ≤ limit
        → page_of limit (take (suc limit) xs)
          ≡ record { items = xs; has_more = false; next_cursor = none }
    unfolding page_of
    last_page xs h =
        rw (take_whole (suc limit) xs (omega arith)) (elim (Bool-cases (ltb limit (length xs))) [
          | inl e ↦ absurd (ground (arith, e))
          | inr e ↦ rw e refl
        ])

    full_page :
        (xs : List R)
        → limit < length xs
        → page_of limit (take (suc limit) xs) ≡ record {
          items = take limit xs;
          has_more = true;
          next_cursor = last_cursor (take limit xs);
        }
    unfolding page_of
    full_page xs h =
        rw (length-take (suc limit) xs (omega arith), take-take limit xs)
          (elim (Bool-cases (ltb limit (suc limit))) [
            | inl e ↦ rw e refl
            | inr e ↦ absurd (ground (arith, e))
          ])

    module _ (rows : List R) (descends : Descends rows) where
      follow-rest :
          (fuel : ℕ) (pre suf : List R) (c : Option C)
          → rows ≡ pre ++ suf
          → length suf < fuel
          → rows_below c rows ≡ suf
          → follow fuel (listed rows) c ≡ suf
      unfolding follow
      follow-rest zero pre suf c split enough at = absurd (omega arith)
      follow-rest (suc fuel) pre suf c split enough at =
          elim (Bool-cases (ltb limit (length suf))) [
            | inr e ↦ rw (at, last_page suf (ground (arith, e))) (append-nil suf)
            | inl e ↦
                let (q, y, ends, next) =
                  last_row (take limit suf)
                    (omega (arith, length-take limit suf (ground (arith, e)))) in
                let unread : rows ≡ pre ++ (take limit suf ++ drop limit suf) =
                  split ∙ ap (λ zs. pre ++ zs) (sym (take-append-drop limit suf)) in
                let whole : rows ≡ (pre ++ q) ++ y ∷ drop limit suf =
                  unread ∙ cut pre q (take limit suf) (drop limit suf) y ends in
                rw (at, full_page suf (ground (arith, e)), next)
                  (ap (λ zs. take limit suf ++ zs)
                      (follow-rest fuel (pre ++ take limit suf) (drop limit suf) (some (cursor y))
                        (unread ∙ sym (append_assoc pre (take limit suf) (drop limit suf)))
                        (omega
                          (arith, length-drop limit suf, length-take limit suf (ground (arith, e))))
                        (subst (λ zs. rows_below (some (cursor y)) zs ≡ drop limit suf) (sym whole)
                          (rows_below-cursor (pre ++ q) y (drop limit suf)
                            (subst Descends whole descends))))
                    ∙ take-append-drop limit suf)
          ]

      -- Reading on from page to page, with a limit of at least one row, gives every row once and in
      -- order, when the rows descend; as many rounds as there are rows, and one, are enough.
      pub follow-all : (fuel : ℕ) → length rows < fuel → follow fuel (listed rows) none ≡ rows
      follow-all fuel enough = follow-rest fuel [] rows none refl enough refl
