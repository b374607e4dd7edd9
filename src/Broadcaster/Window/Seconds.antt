-- ===== src/Broadcaster/Window/Seconds.antt =====
-- The ring against its specification, a bucket for every second.
use solana_dashboard.Common.{
  ◌+◌, ◌%◌, ◌<◌, ◌≡◌, Option, none, some, List, [], ◌∷◌, ◌==◌, if◌then◌else◌, arith,
}
use solana_dashboard.Common.Int.{word_mod, ℤ, pos, pos_part, neg_part, ltb_ℤ, eqb_ℤ, ◌<ℤ◌}
use solana_dashboard.Broadcaster.Window.{
  Floats, SecondBucket, TokenWindowState, Trade, bucket_index, fresh_bucket, new_window,
  opened_bucket, counted_bucket, append_second_bucket, append_all,
}

-- a < b + 300.
infix 50 ◌≺◌
abbrev pub ◌≺◌ : ℤ → ℤ → Type 0
a ≺ b = pos_part a + neg_part b < pos_part b + 300 + neg_part a

-- Two times that share a bucket are equal, or 300 seconds apart at least.
pub bucket_index_apart : (a b : ℤ) → bucket_index a ≡ bucket_index b → a ≺ b → b ≺ a → a ≡ b
unfolding bucket_index
bucket_index_apart a b h l r = ground arith

abbrev pub later : ℤ → ℤ → ℤ
later m t = if ltb_ℤ m t then t else m

-- The latest time so far.
abbrev pub high_water : {F : Type 0} → ℤ → List (Trade F) → ℤ
high_water m [] = m
high_water m (x ∷ xs) = high_water (later m x.ts) xs

-- No trade comes 300 seconds or more after a later one.
abbrev pub OnTime : {F : Type 0} → ℤ → List (Trade F) → Type 0
OnTime m [] = Unit
OnTime m (x ∷ xs) = (m ≺ x.ts) × OnTime (later m x.ts) xs

module _ {F : Type 0} (fl : Floats F) where
  -- The bucket of a second after one more trade in it.
  pub joined : Option (SecondBucket F) → Trade F → SecondBucket F
  joined none x = record {
    bucket_start = x.ts;
    buys = if x.is_buy then 1 else 0;
    sells = if x.is_buy then 0 else 1;
    volume = fl.add fl.zero x.vol;
    buy_volume = if x.is_buy then fl.add fl.zero x.vol else fl.zero;
    sell_volume = if x.is_buy then fl.zero else fl.add fl.zero x.vol;
    open_price = x.price;
    close_price = x.price;
  }
  joined (some b) x = record {
    bucket_start = b.bucket_start;
    buys = if x.is_buy then (b.buys + 1) % word_mod else b.buys;
    sells = if x.is_buy then b.sells else (b.sells + 1) % word_mod;
    volume = fl.add b.volume x.vol;
    buy_volume = if x.is_buy then fl.add b.buy_volume x.vol else b.buy_volume;
    sell_volume = if x.is_buy then b.sell_volume else fl.add b.sell_volume x.vol;
    open_price = if fl.is_zero b.open_price then x.price else b.open_price;
    close_price = x.price;
  }

  -- The specification: the trades of the second t, folded in their order.
  pub second_of : ℤ → Option (SecondBucket F) → List (Trade F) → Option (SecondBucket F)
  second_of t b [] = b
  second_of t b (x ∷ xs) = second_of t (if eqb_ℤ x.ts t then some (joined b x) else b) xs

  -- What the ring holds for the second t.
  pub held : TokenWindowState F → ℤ → Option (SecondBucket F)
  held window t =
      let bucket = window.second_buckets (bucket_index t) in
      if eqb_ℤ bucket.bucket_start t then some bucket else none

  held-append :
      (w : TokenWindowState F) (x : Trade F) (t : ℤ)
      → held (append_second_bucket fl w x) t ≡ (
          if eqb_ℤ x.ts t
          then some (joined (held w t) x)
          else if bucket_index t == bucket_index x.ts
          then none
          else held w t)
  unfolding held joined append_second_bucket opened_bucket counted_bucket fresh_bucket
  held-append w x t = ground arith

  -- The ring agrees with a specification for every second that is less than 300 seconds old, and
  -- holds nothing later than the latest trade.
  record Agreement (w : TokenWindowState F) (m : ℤ) (spec : ℤ → Option (SecondBucket F))
      : Type 0 where
    recent : (t : ℤ) → pos 0 <ℤ t → m ≺ t → held w t ≡ spec t
    ahead : (t : ℤ) → pos 0 <ℤ t → m <ℤ t → held w t ≡ none

  step-Agreement :
      (w : TokenWindowState F) (m : ℤ) (spec : ℤ → Option (SecondBucket F)) (x : Trade F)
      → m ≺ x.ts
      → Agreement w m spec
      → Agreement
          (append_second_bucket fl w x)
          (later m x.ts)
          (λ t. if eqb_ℤ x.ts t then some (joined (spec t) x) else spec t)
  step-Agreement w m spec x on_time ag = record {
    recent = λ t p r.
        ground (arith, held-append w x t, bucket_index_apart t x.ts, ag.recent t p, ag.ahead t p);
    ahead = λ t p r. ground (arith, held-append w x t, ag.ahead t p);
  }

  second_of-Agreement :
      (xs : List (Trade F)) (w : TokenWindowState F) (m : ℤ) (spec : ℤ → Option (SecondBucket F))
      → OnTime m xs
      → Agreement w m spec
      → Agreement (append_all fl w xs) (high_water m xs) (λ t. second_of t (spec t) xs)
  unfolding second_of append_all
  second_of-Agreement [] w m spec h ag = ag
  second_of-Agreement (x ∷ xs) w m spec (h, hs) ag =
      second_of-Agreement xs (append_second_bucket fl w x) (later m x.ts) _ hs
        (step-Agreement w m spec x h ag)

  new_window-Agreement : Agreement (new_window fl) (pos 0) (λ t. none)
  unfolding held new_window fresh_bucket
  new_window-Agreement = record { recent = λ t p r. ground arith; ahead = λ t p r. ground arith }

  -- If no trade of a token comes 300 seconds or more after a later one, then for each second of the
  -- 300 up to the latest trade the ring holds exactly the bucket that the trades of that second
  -- make, in their order, from an empty one: open price, close price, counts and volumes.
  pub append_all-second_of :
      (xs : List (Trade F)) (t : ℤ)
      → OnTime (pos 0) xs
      → pos 0 <ℤ t
      → high_water (pos 0) xs ≺ t
      → held (append_all fl (new_window fl) xs) t ≡ second_of t none xs
  append_all-second_of xs t h p r =
      (second_of-Agreement xs (new_window fl) (pos 0) (λ t'. none) h new_window-Agreement).recent t
        p r
