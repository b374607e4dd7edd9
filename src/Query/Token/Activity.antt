-- ===== src/Query/Token/Activity.antt =====
-- All activity of a token, read page by page from the service of internal/query/token.go.
use mathlib.Core.List.{Perm}
use solana_dashboard.Common.{
  ℕ, zero, suc, ◌≤◌, ◌<◌, ◌≡◌, refl, sym, ap, ◌∙◌, subst, String, Option, none, some, List, [], ◌∷◌,
  ◌++◌, map, length, arith, inl, inr, Option-cases, Bool-cases,
}
use solana_dashboard.Common.Int.{ℤ, pos, leb_ℤ}
use solana_dashboard.Result.{Result, ok, ◌>>=◌}
use solana_dashboard.Store.{ActivityEventRecord}
use solana_dashboard.Store.Pages.{
  ActivityEventCursor, cursor_of, is_below, listed_row, of_mint, list_activity_events_page_by_mint,
}
use solana_dashboard.Store.Pages.Follow.{Page, follow, Descends}
use solana_dashboard.Store.Pages.Order.{DistinctSeqs, AllWhole}
use solana_dashboard.Store.Pages.Complete.{list_activity_events_page_by_mint-all}
use solana_dashboard.Query.Amount.{BigInt}
use solana_dashboard.Query.Token.{
  TokenSnapshotRecord, TokenActivity, Rat, TokenService, build_token_activity, clamp_limit,
  list_activity_page_by_mint, require_token_snapshot,
}

-- The service on a table of activities, with the snapshots of tokens and, if there is an event
-- reader, the checkpoint of the projection.
abbrev pub service_on :
    List ActivityEventRecord → (String → Option TokenSnapshotRecord) → Option ℤ → TokenService
service_on table snapshots log_id = record {
  load_projection_checkpoint = elim log_id [ none ↦ none | some id ↦ some (λ name. ok id) ];
  model = some (record {
    find_token_snapshot_by_mint = λ mint. ok (snapshots mint);
    list_trade_events_by_mint = λ mint limit. ok [];
    list_activity_events_page_by_mint =
        λ mint limit cursor. ok (list_activity_events_page_by_mint table mint limit cursor);
  });
}

module _ {F : Type 0} (big : BigInt) (to_float : Rat → F) where
  -- A client that asks for page after page.
  unfoldable pub all_activity :
      ℕ → TokenService → String → ℤ → Option ActivityEventCursor → Result (List (TokenActivity F))
  all_activity zero s mint limit cursor = ok []
  all_activity (suc fuel) s mint limit cursor = do
    page ← list_activity_page_by_mint big to_float s mint limit cursor
    rest ← elim page.next_cursor [
      | none ↦ ok []
      | some next ↦ all_activity fuel s mint limit (some next)
    ]
    ok (page.activity ++ rest)

  module _ (table : List ActivityEventRecord) (snapshots : String → Option TokenSnapshotRecord)
      (log_id : Option ℤ) (mint : String) (limit : ℤ) {snapshot : TokenSnapshotRecord}
      (known : snapshots mint ≡ some snapshot) where
    abbrev page_at : Option ActivityEventCursor → Page ActivityEventRecord ActivityEventCursor
    page_at cursor = list_activity_events_page_by_mint table mint (clamp_limit limit 100) cursor

    page_lem :
        (cursor : Option ActivityEventCursor)
        → (id : ℤ) × (list_activity_page_by_mint big to_float
              (service_on table snapshots log_id)
              mint
              limit
              cursor
            ≡ ok (record {
              activity = map (build_token_activity big to_float snapshot) (page_at cursor).items;
              has_more = (page_at cursor).has_more;
              next_cursor = (page_at cursor).next_cursor;
              snapshot_log_id = id;
            }))
    unfolding list_activity_page_by_mint require_token_snapshot
    page_lem cursor = elim (Option-cases log_id) [
      | inl e ↦ (pos 0, rw (known, e) refl)
      | inr (id, e) ↦ (id, rw (known, e) refl)
    ]

    map-append :
        (xs ys : List ActivityEventRecord)
        → map (build_token_activity big to_float snapshot) (xs ++ ys)
          ≡ map (build_token_activity big to_float snapshot) xs
            ++ map (build_token_activity big to_float snapshot) ys
    map-append [] ys = refl
    map-append (x ∷ xs) ys =
        ap (λ zs. build_token_activity big to_float snapshot x ∷ zs) (map-append xs ys)

    all_activity-follow :
        (fuel : ℕ) (cursor : Option ActivityEventCursor)
        → all_activity fuel (service_on table snapshots log_id) mint limit cursor
          ≡ ok (
              map
                (build_token_activity big to_float snapshot)
                (follow cursor_of is_below fuel page_at cursor))
    unfolding all_activity follow
    all_activity-follow zero cursor = refl
    all_activity-follow (suc fuel) cursor =
        rw (page_lem cursor).1 (elim (Option-cases (page_at cursor).next_cursor) [
          | inl e ↦ rw e (ap ok (sym (map-append (page_at cursor).items [])))
          | inr (next, e) ↦
              rw (e, all_activity-follow fuel (some next))
                (ap ok (
                  sym (
                    map-append (page_at cursor).items
                      (follow cursor_of is_below fuel page_at (some next)))))
        ])

    clamp_limit-positive : 1 ≤ clamp_limit limit 100
    unfolding clamp_limit
    clamp_limit-positive = elim (Bool-cases (leb_ℤ limit (pos 0))) [
      | inl e ↦ rw e (omega arith)
      | inr e ↦ rw e (ground (arith, e))
    ]

    -- For a token with a snapshot, where the numbers insert_seq differ and the times are whole seconds, a
    -- client that asks for page after page of the token's activity, with any limit, gets no error, and
    -- gets each of its rows as one activity, in the order of the listing; one call more than there are
    -- rows is enough.
    pub all_activity_lem :
        (fuel : ℕ)
        → DistinctSeqs table
        → AllWhole table
        → length (of_mint mint table) < fuel
        → (rows : List ActivityEventRecord) × (all_activity fuel
              (service_on table snapshots log_id)
              mint
              limit
              none
            ≡ ok (map (build_token_activity big to_float snapshot) (map listed_row rows)))
          × Perm rows (of_mint mint table)
          × Descends cursor_of is_below (map listed_row rows)
    all_activity_lem fuel distinct whole enough =
        let (rows, all, perm, sorted) =
          list_activity_events_page_by_mint-all table mint (clamp_limit limit 100) fuel distinct
            whole clamp_limit-positive enough in
        (
          rows,
          all_activity-follow fuel none
              ∙ ap (λ zs. ok (map (build_token_activity big to_float snapshot) zs)) all,
          perm,
          subst (Descends cursor_of is_below) all sorted,
        )
