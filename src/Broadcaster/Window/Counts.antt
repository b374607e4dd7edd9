-- ===== src/Broadcaster/Window/Counts.antt =====
-- The counts of a summary against the trades themselves.
use solana_dashboard.Common.{
  ℕ, zero, suc, ◌+◌, ◌%◌, ◌≤◌, ◌<◌, ◌≡◌, ◌≢◌, refl, ◌∙◌, ◌⊎◌, inl, Bool, true, false, not, ◌&&◌,
  List, [], ◌∷◌, if◌then◌else◌, arith,
}
use solana_dashboard.Common.Int.{
  ℤ, pos, pos_part, neg_part, ltb_ℤ, leb_ℤ, ◌<ℤ◌, ◌≤ℤ◌, word_mod, IsTime, sub_int64,
  sub_int64_parts,
}
use solana_dashboard.Broadcaster.Window.{
  Floats, SecondBucket, TokenWindowState, WindowSnapshot, Trade, Scan, bucket_index, fresh_bucket,
  new_window, opened_bucket, counted_bucket, append_second_bucket, append_all, is_counted,
  add_bucket, scan_buckets, empty_snapshot, summarize_second_buckets,
}
use solana_dashboard.Broadcaster.Window.Sums.{
  sum_from, array_sum-update, regroup, nothing_added, replaced, totals,
}
use solana_dashboard.Broadcaster.Window.Seconds.{◌≺◌, later, OnTime, bucket_index_apart}

bucket_index-lt : (t : ℤ) → bucket_index t < 300
unfolding bucket_index
bucket_index-lt t = ground arith

-- Buys or sells.
abbrev pub tally : {F : Type 0} → Bool → SecondBucket F → ℕ
tally side b = if side then b.buys else b.sells

abbrev pub tallied : {F : Type 0} → Bool → WindowSnapshot F → ℕ
tallied side s = if side then s.buys else s.sells

-- The trades of one side in (cutoff, now], counted one by one.
abbrev pub trades_between : {F : Type 0} → Bool → ℤ → ℤ → List (Trade F) → ℕ
trades_between side cutoff now [] = 0
trades_between side cutoff now (x ∷ xs) =
    (if ltb_ℤ cutoff x.ts && leb_ℤ x.ts now && (if side then x.is_buy else not x.is_buy)
      then 1
      else 0)
    + trades_between side cutoff now xs

-- What a trade needs for the counts to be exact: a positive time up to now, and a price.
pub record Fits {F : Type 0} (fl : Floats F) (now : ℤ) (x : Trade F) : Type 0 where
  pub positive : pos 0 <ℤ x.ts
  pub past : x.ts ≤ℤ now
  pub priced : fl.is_zero x.price ≡ false

abbrev pub AllFit : {F : Type 0} → Floats F → ℤ → List (Trade F) → Type 0
AllFit fl now [] = Unit
AllFit fl now (x ∷ xs) = Fits fl now x × AllFit fl now xs

module _ {F : Type 0} (fl : Floats F) (side : Bool) (cutoff now : ℤ) where
  abbrev share : TokenWindowState F → ℕ → ℕ
  share w i = let b = w.second_buckets i in if is_counted fl cutoff now b then tally side b else 0

  counted_once :
      (b : SecondBucket F) (scan : Scan F)
      → tallied side (if is_counted fl cutoff now b then add_bucket fl scan b else scan).snapshot
          % word_mod
        ≡ (tallied side scan.snapshot + (if is_counted fl cutoff now b then tally side b else 0))
          % word_mod
  unfolding add_bucket
  counted_once b scan = ground arith

  -- The loop adds up the shares.
  scan_buckets-sum :
      (w : TokenWindowState F) (n i : ℕ) (scan : Scan F)
      → tallied side (scan_buckets fl w.second_buckets cutoff now n i scan).snapshot % word_mod
        ≡ (tallied side scan.snapshot + sum_from (share w) n i) % word_mod
  unfolding scan_buckets
  scan_buckets-sum w zero i scan = omega arith
  scan_buckets-sum w (suc n) i scan =
      let b = w.second_buckets i in
      scan_buckets-sum w n (suc i)
        (if is_counted fl cutoff now b then add_bucket fl scan b else scan)
      ∙ regroup _ _ _ _ (counted_once b scan)

  -- A bucket is untouched, or of its own slot, not later than m and with a price.
  abbrev Placed : ℤ → ℕ → SecondBucket F → Type 0
  Placed m i b =
      ((b.bucket_start ≡ pos 0) × (fl.is_zero b.close_price ≡ true))
      ⊎ ((bucket_index b.bucket_start ≡ i)
          × (b.bucket_start ≤ℤ m)
          × (fl.is_zero b.close_price ≡ false))

  share-step :
      (w : TokenWindowState F) (m : ℤ) (x : Trade F)
      → ((i : ℕ) → Placed m i (w.second_buckets i))
      → cutoff ≤ℤ now
      → pos_part now + neg_part cutoff ≤ pos_part cutoff + 300 + neg_part now
      → pos 0 <ℤ x.ts
      → x.ts ≤ℤ now
      → m ≺ x.ts
      → fl.is_zero x.price ≡ false
      → share (append_second_bucket fl w x) (bucket_index x.ts) % word_mod
        ≡ (share w (bucket_index x.ts) + trades_between side cutoff now (x ∷ [])) % word_mod
  unfolding append_second_bucket opened_bucket counted_bucket fresh_bucket is_counted
  share-step w m x placed order span p le late price = ground (
    arith,
    placed (bucket_index x.ts),
    bucket_index_apart ((w.second_buckets (bucket_index x.ts)).bucket_start) x.ts,
  )

  share-other :
      (w : TokenWindowState F) (x : Trade F) (j : ℕ)
      → j ≢ bucket_index x.ts
      → share (append_second_bucket fl w x) j ≡ share w j
  unfolding append_second_bucket
  share-other w x j d = ground arith

  Placed-step :
      (w : TokenWindowState F) (m : ℤ) (x : Trade F)
      → Fits fl now x
      → ((i : ℕ) → Placed m i (w.second_buckets i))
      → (i : ℕ) → Placed (later m x.ts) i ((append_second_bucket fl w x).second_buckets i)
  unfolding append_second_bucket opened_bucket counted_bucket fresh_bucket
  Placed-step w m x fits placed i = ground (arith, placed i)

  module _ (order : cutoff ≤ℤ now)
      (span : pos_part now + neg_part cutoff ≤ pos_part cutoff + 300 + neg_part now) where
    total-append :
        (xs : List (Trade F)) (w : TokenWindowState F) (m : ℤ)
        → ((i : ℕ) → Placed m i (w.second_buckets i))
        → OnTime m xs
        → AllFit fl now xs
        → sum_from (share (append_all fl w xs)) 300 0 % word_mod
          ≡ (sum_from (share w) 300 0 + trades_between side cutoff now xs) % word_mod
    unfolding append_all
    total-append [] w m placed h fits = nothing_added _
    total-append (x ∷ xs) w m placed (h, hs) (fit, fits) =
        let w' = append_second_bucket fl w x in
        let k = bucket_index x.ts in
        replaced _ _ _ _ _ _ _
          (total-append xs w' (later m x.ts) (Placed-step w m x fit placed) hs fits)
          (array_sum-update (share w) (share w') k (share-other w x) (bucket_index-lt x.ts))
          (share-step w m x placed order span fit.positive fit.past h fit.priced)

  new_window-Placed :
      fl.is_zero fl.zero ≡ true → (i : ℕ) → Placed (pos 0) i ((new_window fl).second_buckets i)
  unfolding new_window fresh_bucket
  new_window-Placed z i = inl (refl, z)

  new_window-share :
      fl.is_zero fl.zero ≡ true → (n i : ℕ) → sum_from (share (new_window fl)) n i ≡ 0
  unfolding new_window fresh_bucket
  new_window-share z zero i = refl
  new_window-share z (suc n) i = ground (arith, new_window-share z n (suc i))

no_count : {F : Type 0} (fl : Floats F) (side : Bool) → tallied side (empty_snapshot fl) ≡ 0
unfolding empty_snapshot
no_count fl side = ground arith

cutoff_order : (now : ℤ) (back : ℕ) → IsTime now → back ≤ 300 → sub_int64 now (pos back) ≤ℤ now
cutoff_order now back time short =
    omega
      (arith, sub_int64_parts now (pos back) time (record { nonneg = refl; bounded = omega arith }))

cutoff_span :
    (now : ℤ) (back : ℕ)
    → IsTime now
    → back ≤ 300
    → pos_part now + neg_part (sub_int64 now (pos back))
      ≤ pos_part (sub_int64 now (pos back)) + 300 + neg_part now
cutoff_span now back time short =
    omega
      (arith, sub_int64_parts now (pos back) time (record { nonneg = refl; bounded = omega arith }))

-- After trades that each carry a price, lie in the past and come less than 300 seconds late, the
-- summary of the last `back` seconds, up to 300, counts exactly the trades of these seconds: its
-- buys (or its sells) are the number of buys (or sells) in (now - back, now], as an int64. 0.0 == 0
-- is all that is asked of the floating-point numbers.
pub summarize_second_buckets-counts :
    {F : Type 0} (fl : Floats F) (side : Bool) (xs : List (Trade F)) (now : ℤ) (back : ℕ)
    → fl.is_zero fl.zero ≡ true
    → IsTime now
    → back ≤ 300
    → OnTime (pos 0) xs
    → AllFit fl now xs
    → tallied side (summarize_second_buckets fl (append_all fl (new_window fl) xs) now (pos back))
        % word_mod
      ≡ trades_between side (sub_int64 now (pos back)) now xs % word_mod
unfolding summarize_second_buckets empty_snapshot
summarize_second_buckets-counts fl side xs now back z time short on_time fits =
    let cutoff = sub_int64 now (pos back) in
    let w = append_all fl (new_window fl) xs in
    totals _ _ _ _ _ (scan_buckets-sum fl side cutoff now w 300 0 _) (no_count fl side)
      (total-append fl side cutoff now (cutoff_order now back time short)
        (cutoff_span now back time short) xs (new_window fl) (pos 0)
        (new_window-Placed fl side cutoff now z) on_time fits)
      (new_window-share fl side cutoff now z 300 0)
