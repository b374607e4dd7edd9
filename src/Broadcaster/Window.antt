-- ===== src/Broadcaster/Window.antt =====
-- The ring of 300 one-second buckets of internal/broadcaster/stats.go: TokenWindowState,
-- appendSecondBucket, summarizeSecondBuckets and mergeWindowSnapshots.
-- Prices and volumes are Go's float64, a parameter. Counts are int64 as 64-bit patterns, times are
-- integers. A mutex guards each window; a call holds it throughout, so calls do not overlap.
pub mod Sums
pub mod Counts
pub mod Seconds
use solana_dashboard.Common.{
  ℕ, zero, suc, ◌+◌, ◌-◌, ◌%◌, Bool, true, false, not, ◌||◌, Option, none, some, List, [], ◌∷◌,
  ◌==◌, if◌then◌else◌,
}
use solana_dashboard.Common.Int.{
  ℤ, pos, negsuc, pos_part, neg_part, sub_ℕ, sub_int64, ltb_ℤ, leb_ℤ, eqb_ℤ, word_mod,
}

-- float64, as far as the broadcaster uses it.
pub record Floats (F : Type 0) : Type 0 where
  pub zero : F
  pub add : F → F → F
  pub is_zero : F → Bool
  pub at_most_zero : F → Bool

pub record SecondBucket (F : Type 0) : Type 0 where
  pub bucket_start : ℤ
  pub buys : ℕ
  pub sells : ℕ
  pub volume : F
  pub buy_volume : F
  pub sell_volume : F
  pub open_price : F
  pub close_price : F

-- The array of buckets is a function of the index, used below 300.
pub record TokenWindowState (F : Type 0) : Type 0 where
  pub seeded : Bool
  pub last_price : F
  pub last_unix_ts : ℤ
  pub last_active_ts : ℤ
  pub last_persisted_minute : ℤ
  pub last_log_id : ℤ
  pub second_buckets : ℕ → SecondBucket F

pub record WindowSnapshot (F : Type 0) : Type 0 where
  pub anchor_price : Option F
  pub buys : ℕ
  pub sells : ℕ
  pub buy_volume : F
  pub sell_volume : F
  pub volume : F

-- The arguments of a call of appendSecondBucket.
pub record Trade (F : Type 0) : Type 0 where
  pub is_buy : Bool
  pub vol : F
  pub price : F
  pub ts : ℤ
  pub log_id : ℤ

-- The variables of the loop of summarizeSecondBuckets: the snapshot, and earliestBucketTs.
pub record Scan (F : Type 0) : Type 0 where
  pub snapshot : WindowSnapshot F
  pub earliest : ℤ

-- A sum of two int64 bit patterns.
abbrev pub add_count : ℕ → ℕ → ℕ
add_count a b = (a + b) % word_mod

-- Go's ts % 300, of the sign of ts, and the index that the code makes of it.
abbrev pub remainder : ℤ → ℤ
remainder (pos n) = pos (n % 300)
remainder (negsuc n) = sub_ℕ 0 (suc n % 300)

unfoldable pub bucket_index : ℤ → ℕ
bucket_index ts =
    let idx = remainder ts in
    if ltb_ℤ idx (pos 0) then pos_part idx + 300 - neg_part idx else pos_part idx

abbrev pub update {ℓ} : {A : Type ℓ} → (ℕ → A) → ℕ → A → ℕ → A
update f i a j = if j == i then a else f j

module _ {F : Type 0} (fl : Floats F) where
  -- A bucket that starts afresh at a trade.
  unfoldable pub fresh_bucket : ℤ → F → SecondBucket F
  fresh_bucket start price = record {
    bucket_start = start;
    buys = 0;
    sells = 0;
    volume = fl.zero;
    buy_volume = fl.zero;
    sell_volume = fl.zero;
    open_price = price;
    close_price = price;
  }

  -- `TokenWindowState{}`: every field is its zero value.
  unfoldable pub new_window : TokenWindowState F
  new_window = record {
    seeded = false;
    last_price = fl.zero;
    last_unix_ts = pos 0;
    last_active_ts = pos 0;
    last_persisted_minute = pos 0;
    last_log_id = pos 0;
    second_buckets = λ i. fresh_bucket (pos 0) fl.zero;
  }

  -- The bucket for a trade: reset if it holds another second.
  unfoldable pub opened_bucket : SecondBucket F → F → ℤ → SecondBucket F
  opened_bucket bucket price ts =
      if not (eqb_ℤ bucket.bucket_start ts)
      then fresh_bucket ts price
      else if fl.is_zero bucket.open_price
      then record bucket { open_price = price }
      else bucket

  unfoldable pub counted_bucket : SecondBucket F → Bool → F → F → SecondBucket F
  counted_bucket bucket is_buy vol price = record bucket {
    close_price = price;
    buys = if is_buy then add_count bucket.buys 1 else bucket.buys;
    buy_volume = if is_buy then fl.add bucket.buy_volume vol else bucket.buy_volume;
    sells = if is_buy then bucket.sells else add_count bucket.sells 1;
    sell_volume = if is_buy then bucket.sell_volume else fl.add bucket.sell_volume vol;
    volume = fl.add bucket.volume vol;
  }

  -- appendSecondBucket
  unfoldable pub append_second_bucket : TokenWindowState F → Trade F → TokenWindowState F
  append_second_bucket window trade = record window {
    last_price = price;
    last_unix_ts = ts;
    last_active_ts = ts;
    last_log_id = if ltb_ℤ window.last_log_id log_id then log_id else window.last_log_id;
    second_buckets = update window.second_buckets (bucket_index ts) (
        counted_bucket (opened_bucket (window.second_buckets (bucket_index ts)) price ts) is_buy vol
          price);
  }
    where
      open trade use {is_buy, vol, price, ts, log_id}

  unfoldable pub append_all : TokenWindowState F → List (Trade F) → TokenWindowState F
  append_all window [] = window
  append_all window (trade ∷ trades) = append_all (append_second_bucket window trade) trades

  -- The test that lets a bucket into the summary.
  unfoldable pub is_counted : ℤ → ℤ → SecondBucket F → Bool
  is_counted cutoff now bucket = not (
      leb_ℤ bucket.bucket_start cutoff
      || ltb_ℤ now bucket.bucket_start
      || fl.is_zero bucket.close_price)

  unfoldable pub add_bucket : Scan F → SecondBucket F → Scan F
  add_bucket scan bucket =
      let s = scan.snapshot in
      let first = eqb_ℤ scan.earliest (pos 0) || ltb_ℤ bucket.bucket_start scan.earliest in
      record {
        snapshot = record {
          anchor_price = if first then some bucket.open_price else s.anchor_price;
          buys = add_count s.buys bucket.buys;
          sells = add_count s.sells bucket.sells;
          buy_volume = fl.add s.buy_volume bucket.buy_volume;
          sell_volume = fl.add s.sell_volume bucket.sell_volume;
          volume = fl.add s.volume bucket.volume;
        };
        earliest = if first then bucket.bucket_start else scan.earliest;
      }

  -- The loop over the array, with `n` buckets left from index `i`.
  unfoldable pub scan_buckets : (ℕ → SecondBucket F) → ℤ → ℤ → ℕ → ℕ → Scan F → Scan F
  scan_buckets buckets cutoff now zero i scan = scan
  scan_buckets buckets cutoff now (suc n) i scan =
      scan_buckets buckets cutoff now n (suc i)
        (if is_counted cutoff now (buckets i) then add_bucket scan (buckets i) else scan)

  unfoldable pub empty_snapshot : WindowSnapshot F
  empty_snapshot = record {
    anchor_price = none;
    buys = 0;
    sells = 0;
    buy_volume = fl.zero;
    sell_volume = fl.zero;
    volume = fl.zero;
  }

  -- summarizeSecondBuckets
  unfoldable pub summarize_second_buckets : TokenWindowState F → ℤ → ℤ → WindowSnapshot F
  summarize_second_buckets window now_ts seconds_back =
      let result =
        scan_buckets window.second_buckets (sub_int64 now_ts seconds_back) now_ts 300 0
          (record { snapshot = empty_snapshot; earliest = pos 0 }) in
      result.snapshot

  -- mergeWindowSnapshots
  unfoldable pub merge_window_snapshots : WindowSnapshot F → WindowSnapshot F → WindowSnapshot F
  merge_window_snapshots long tail = record {
    anchor_price = elim long.anchor_price [ some p ↦ some p | none ↦ tail.anchor_price ];
    buys = add_count long.buys tail.buys;
    sells = add_count long.sells tail.sells;
    buy_volume = fl.add long.buy_volume tail.buy_volume;
    sell_volume = fl.add long.sell_volume tail.sell_volume;
    volume = fl.add long.volume tail.volume;
  }
