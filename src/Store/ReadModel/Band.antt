-- ===== src/Store/ReadModel/Band.antt =====
-- Writes to one row that an upsert merges, where merging is associative and a merge of a row with
-- itself is that row: a sequence of such writes, made again, changes nothing.
use solana_dashboard.Common.{
  ◌≡◌, refl, sym, ap, ◌∙◌, String, Option, none, some, List, [], ◌∷◌, str_eq, if◌then◌else◌,
  Bool-cases, inl, inr, fun_ext,
}
use solana_dashboard.Store.ReadModel.{Table, join, upsert}

pub record IsBand {R : Type 0} (merge : R → R → R) : Type 0 where
  pub assoc : (a b c : R) → merge (merge a b) c ≡ merge a (merge b c)
  pub idem : (a : R) → merge a a ≡ a

-- Upserts in turn, each with its row's key.
unfoldable pub upsert_all : {R : Type 0} → (R → R → R) → List (String × R) → Table R → Table R
upsert_all merge [] t = t
upsert_all merge ((key, row) ∷ rows) t = upsert_all merge rows (upsert merge key row t)

module _ {R : Type 0} (merge : R → R → R) where
  of_key : String → List (String × R) → List R
  of_key k [] = []
  of_key k ((key, row) ∷ rows) = if str_eq key k then row ∷ of_key k rows else of_key k rows

  fold_row : Option R → List R → Option R
  fold_row o [] = o
  fold_row o (x ∷ xs) = fold_row (some (join merge o x)) xs

  merged : R → List R → R
  merged x [] = x
  merged x (y ∷ ys) = merged (merge x y) ys

  upsert_all-row :
      (rows : List (String × R)) (t : Table R) (k : String)
      → upsert_all merge rows t k ≡ fold_row (t k) (of_key k rows)
  unfolding upsert_all fold_row of_key upsert
  upsert_all-row [] t k = refl
  upsert_all-row ((key, row) ∷ rows) t k = elim (Bool-cases (str_eq key k)) [
    | inl e ↦ upsert_all-row rows (upsert merge key row t) k ∙ rw (e, upsert) refl
    | inr e ↦ upsert_all-row rows (upsert merge key row t) k ∙ rw (e, upsert) refl
  ]

  module _ (band : IsBand merge) where
    merged-merge : (a x : R) (xs : List R) → merged (merge a x) xs ≡ merge a (merged x xs)
    unfolding merged
    merged-merge a x [] = refl
    merged-merge a x (y ∷ ys) =
        ap (λ z. merged z ys) (band.assoc a x y) ∙ merged-merge a (merge x y) ys

    fold_row-merged :
        (o : Option R) (x : R) (xs : List R)
        → fold_row o (x ∷ xs) ≡ some (join merge o (merged x xs))
    unfolding fold_row merged
    fold_row-merged none x [] = refl
    fold_row-merged none x (y ∷ ys) = fold_row-merged none (merge x y) ys
    fold_row-merged (some a) x [] = refl
    fold_row-merged (some a) x (y ∷ ys) =
        fold_row-merged (some (merge a x)) y ys
        ∙ ap some (
            sym (merged-merge (merge a x) y ys)
            ∙ ap (λ z. merged z ys) (band.assoc a x y)
            ∙ merged-merge a (merge x y) ys)

    join_twice : (o : Option R) (w : R) → merge (join merge o w) w ≡ join merge o w
    join_twice none w = band.idem w
    join_twice (some a) w = band.assoc a w w ∙ ap (merge a) (band.idem w)

    fold_row_twice : (o : Option R) (xs : List R) → fold_row (fold_row o xs) xs ≡ fold_row o xs
    unfolding fold_row
    fold_row_twice o [] = refl
    fold_row_twice o (x ∷ xs) =
        ap (λ p. fold_row p (x ∷ xs)) (fold_row-merged o x xs)
        ∙ fold_row-merged (some (join merge o (merged x xs))) x xs
        ∙ ap some (join_twice o (merged x xs))
        ∙ sym (fold_row-merged o x xs)

    pub upsert_all_twice :
        (rows : List (String × R)) (t : Table R)
        → upsert_all merge rows (upsert_all merge rows t) ≡ upsert_all merge rows t
    upsert_all_twice rows t = fun_ext (λ k.
        upsert_all-row rows (upsert_all merge rows t) k
        ∙ ap (λ o. fold_row o (of_key k rows)) (upsert_all-row rows t k)
        ∙ fold_row_twice (t k) (of_key k rows)
        ∙ sym (upsert_all-row rows t k))
