-- ===== src/Store/Pages.antt =====
-- The pages of a token's activity: ListActivityEventsPageByMint with its SQL, listTokenActivityEventsPageByMintSQL,
-- and scanActivityEvent, of internal/store/read_model.go. A row of the table keeps its time in
-- nanoseconds; a listed row has it in seconds. Slots are below 2^63. Errors of the database are left out.
pub mod Follow
pub mod Order
pub mod Complete
use solana_dashboard.Common.{
  ℕ, suc, ◌+◌, ◌/◌, String, Bool, true, false, ◌&&◌, ◌||◌, Option, none, some, List, [], ◌∷◌,
  str_eq, ltb, ◌==◌, if◌then◌else◌, map, take,
}
use solana_dashboard.Common.Int.{ℤ, pos, negsuc, sub_ℕ, ltb_ℤ, eqb_ℤ}
use solana_dashboard.Store.{ActivityEventRecord}
use solana_dashboard.Store.Pages.Follow.{Page, page_of, rows_below}

-- ActivityEventCursor
pub record ActivityEventCursor : Type 0 where
  pub event_unix_ts : ℤ
  pub slot : ℕ
  pub insert_seq : ℤ

abbrev pub cursor_of : ActivityEventRecord → ActivityEventCursor
cursor_of row = record {
  event_unix_ts = row.event_unix_ts;
  slot = row.slot;
  insert_seq = row.insert_seq;
}

-- The comparison of two rows (time, slot, sequence) in SQL.
unfoldable pub is_less : ActivityEventCursor → ActivityEventCursor → Bool
is_less a b =
    ltb_ℤ a.event_unix_ts b.event_unix_ts
    || (eqb_ℤ a.event_unix_ts b.event_unix_ts
        && (ltb a.slot b.slot || (a.slot == b.slot && ltb_ℤ a.insert_seq b.insert_seq)))

abbrev pub is_below : ActivityEventRecord → ActivityEventCursor → Bool
is_below row c = is_less (cursor_of row) c

-- extract(epoch from event_time)::bigint, which rounds a half away from zero.
unfoldable pub seconds_of : ℤ → ℤ
seconds_of (pos n) = pos ((n + 500000000) / 1000000000)
seconds_of (negsuc n) = sub_ℕ 0 ((suc n + 500000000) / 1000000000)

-- The row as it is selected.
abbrev pub listed_row : ActivityEventRecord → ActivityEventRecord
listed_row row = record row { event_unix_ts = seconds_of row.event_unix_ts }

-- order by event_time desc, slot desc, insert_seq desc
abbrev pub place : ActivityEventRecord → List ActivityEventRecord → List ActivityEventRecord
place row [] = row ∷ []
place row (first ∷ rows) =
    let rest = place row rows in
    if is_less (cursor_of row) (cursor_of first) then first ∷ rest else row ∷ first ∷ rows

abbrev pub newest_first : List ActivityEventRecord → List ActivityEventRecord
newest_first [] = []
newest_first (row ∷ rows) = place row (newest_first rows)

-- where mint = $1
abbrev pub of_mint : String → List ActivityEventRecord → List ActivityEventRecord
of_mint mint [] = []
of_mint mint (row ∷ rows) =
    let rest = of_mint mint rows in if str_eq row.mint mint then row ∷ rest else rest

-- The result of the query: the condition on the cursor reads the time in seconds, and the order reads
-- the time itself.
unfoldable pub query_page :
    List ActivityEventRecord → String → ℕ → Option ActivityEventCursor → List ActivityEventRecord
query_page table mint fetch_limit cursor =
    take fetch_limit
      (rows_below cursor_of is_below cursor (map listed_row (newest_first (of_mint mint table))))

-- ListActivityEventsPageByMint
unfoldable pub list_activity_events_page_by_mint :
    List ActivityEventRecord
    → String
    → ℕ
    → Option ActivityEventCursor
    → Page ActivityEventRecord ActivityEventCursor
list_activity_events_page_by_mint table mint limit cursor =
    page_of cursor_of is_below limit (query_page table mint (suc limit) cursor)
