-- ===== src/Store/Pages/Complete.antt =====
-- All pages of a token's activity together: ListActivityEventsPageByMint of internal/store/read_model.go,
-- called with the cursor that the call before gave, until there is none.
use mathlib.Core.List.{Perm}
use solana_dashboard.Common.{
  ℕ, suc, ◌≤◌, ◌<◌, ◌≡◌, refl, sym, ap, ◌∙◌, subst, String, none, List, [], ◌∷◌, Bool-cases, inl,
  inr, map, length, str_eq, arith,
}
use solana_dashboard.Store.{ActivityEventRecord}
use solana_dashboard.Store.Pages.{
  cursor_of, is_below, listed_row, place, newest_first, of_mint, query_page,
  list_activity_events_page_by_mint,
}
use solana_dashboard.Store.Pages.Follow.{Descends, follow, follow-all}
use solana_dashboard.Store.Pages.Order.{
  OtherSeq, DistinctSeqs, AllWhole, newest_first-Sorted, AllWhole-newest_first, Descends-listed,
  newest_first-Perm,
}

module _ (mint : String) where
  OtherSeq-of_mint :
      (x : ActivityEventRecord) (ys : List ActivityEventRecord)
      → OtherSeq x ys
      → OtherSeq x (of_mint mint ys)
  OtherSeq-of_mint x [] o = tt
  OtherSeq-of_mint x (y ∷ ys) (o, os) = elim (Bool-cases (str_eq y.mint mint)) [
    | inl e ↦ rw e (o, OtherSeq-of_mint x ys os)
    | inr e ↦ rw e (OtherSeq-of_mint x ys os)
  ]

  DistinctSeqs-of_mint :
      (xs : List ActivityEventRecord) → DistinctSeqs xs → DistinctSeqs (of_mint mint xs)
  DistinctSeqs-of_mint [] d = tt
  DistinctSeqs-of_mint (x ∷ xs) (o, d) = elim (Bool-cases (str_eq x.mint mint)) [
    | inl e ↦ rw e (OtherSeq-of_mint x xs o, DistinctSeqs-of_mint xs d)
    | inr e ↦ rw e (DistinctSeqs-of_mint xs d)
  ]

  AllWhole-of_mint : (xs : List ActivityEventRecord) → AllWhole xs → AllWhole (of_mint mint xs)
  AllWhole-of_mint [] w = tt
  AllWhole-of_mint (x ∷ xs) (h, w) = elim (Bool-cases (str_eq x.mint mint)) [
    | inl e ↦ rw e (h, AllWhole-of_mint xs w)
    | inr e ↦ rw e (AllWhole-of_mint xs w)
  ]

length-place :
    (x : ActivityEventRecord) (ys : List ActivityEventRecord)
    → length (place x ys) ≡ suc (length ys)
length-place x [] = refl
length-place x (y ∷ ys) = ground (arith, length-place x ys)

length-newest_first : (xs : List ActivityEventRecord) → length (newest_first xs) ≡ length xs
length-newest_first [] = refl
length-newest_first (x ∷ xs) = length-place x (newest_first xs) ∙ ap suc (length-newest_first xs)

length-map : (xs : List ActivityEventRecord) → length (map listed_row xs) ≡ length xs
length-map [] = refl
length-map (x ∷ xs) = ap suc (length-map xs)

-- Where the numbers insert_seq differ and the times are whole seconds, following the cursors of a
-- token's activity, with any limit of at least one row, gives each row of the token exactly once, the
-- newest first, and comes to a page without a cursor: one call more than there are rows is enough.
pub list_activity_events_page_by_mint-all :
    (table : List ActivityEventRecord) (mint : String) (limit fuel : ℕ)
    → DistinctSeqs table
    → AllWhole table
    → 1 ≤ limit
    → length (of_mint mint table) < fuel
    → let all =
        follow cursor_of is_below fuel (list_activity_events_page_by_mint table mint limit) none in
      (rows : List ActivityEventRecord) × (all ≡ map listed_row rows)
      × Perm rows (of_mint mint table)
      × Descends cursor_of is_below all
unfolding list_activity_events_page_by_mint query_page
list_activity_events_page_by_mint-all table mint limit fuel distinct whole positive enough =
    let own = of_mint mint table in
    let rows = newest_first own in
    let w = AllWhole-of_mint mint table whole in
    let d =
      Descends-listed rows (AllWhole-newest_first own w)
        (newest_first-Sorted own (DistinctSeqs-of_mint mint table distinct)) in
    let read =
      follow-all cursor_of is_below limit positive (map listed_row rows) d fuel
        (omega (arith, length-map rows, length-newest_first own, enough)) in
    (rows, read, newest_first-Perm own, subst (Descends cursor_of is_below) (sym read) d)
