-- ===== src/Observability.antt =====
-- The metrics registry of internal/observability/metrics.go: IncCounter, SetGauge, AddGauge,
-- ObserveMilliseconds and the snapshot of a histogram. A map is an association list; a nil entry of it
-- is a missing one. An index out of range, which would panic, gives none. A mutex guards each map and
-- each histogram, and the counters are atomic, so operations act one after the other. float64 is a
-- parameter; serving the snapshot over HTTP, its uptime and the sorting of names are left out.
pub mod Sound
use solana_dashboard.Common.{
  ℕ, zero, suc, ◌+◌, ◌%◌, String, Bool, true, false, Option, none, some, List, [], ◌∷◌, str_eq, ltb,
  if◌then◌else◌, length,
}
use solana_dashboard.Common.Int.{ℤ, pos, eqb_ℤ, add_int64, word_mod}

-- float64, as far as a histogram uses it; `is_usable` is not NaN, not infinite and not below 0.
pub record Measures (F : Type 0) : Type 0 where
  pub zero : F
  pub add : F → F → F
  pub at_most : F → F → Bool
  pub is_usable : F → Bool
  pub divide : F → ℕ → F
  pub of_number : ℕ → F

pub record Histogram (F : Type 0) : Type 0 where
  pub bounds : List F
  pub counts : List ℕ
  pub count : ℕ
  pub sum : F

pub record HistogramSnapshot (F : Type 0) : Type 0 where
  pub count : ℕ
  pub sum : F
  pub average : F
  pub bounds : List F
  pub bucket_counts : List ℕ

pub record Registry (F : Type 0) : Type 0 where
  pub counters : List (String × ℤ)
  pub gauges : List (String × ℤ)
  pub histograms : List (String × Histogram F)

module _ {A : Type 0} where
  abbrev pub find_name : String → List (String × A) → Option A
  find_name name [] = none
  find_name name ((key, a) ∷ xs) = if str_eq key name then some a else find_name name xs

  abbrev pub put_name : String → A → List (String × A) → List (String × A)
  put_name name a [] = (name, a) ∷ []
  put_name name a ((key, old) ∷ xs) =
      let rest = put_name name a xs in if str_eq key name then (key, a) ∷ xs else (key, old) ∷ rest

  abbrev pub or_default : A → Option A → A
  or_default d none = d
  or_default d (some a) = a

-- counts[idx]++ of a uint64.
abbrev pub increment_at : ℕ → List ℕ → Option (List ℕ)
increment_at i [] = none
increment_at zero (c ∷ cs) = some ((c + 1) % word_mod ∷ cs)
increment_at (suc i) (c ∷ cs) = elim (increment_at i cs) [ none ↦ none | some cs' ↦ some (c ∷ cs') ]

module _ {F : Type 0} (m : Measures F) where
  -- NewRegistry
  abbrev pub new_registry : Registry F
  new_registry = record { counters = []; gauges = []; histograms = [] }

  abbrev zeros : ℕ → List ℕ
  zeros zero = []
  zeros (suc n) = 0 ∷ zeros n

  abbrev numbers : List ℕ → List F
  numbers [] = []
  numbers (n ∷ ns) = m.of_number n ∷ numbers ns

  -- The histogram that is made for a new name.
  unfoldable pub new_histogram : Histogram F
  new_histogram = record {
    bounds = numbers (5 ∷ 10 ∷ 25 ∷ 50 ∷ 100 ∷ 250 ∷ 500 ∷ 1000 ∷ 2500 ∷ 5000 ∷ []);
    counts = zeros 11;
    count = 0;
    sum = m.zero;
  }

  -- The loop of observe: the first bound that the value does not exceed, or the place after the last.
  abbrev pub bucket_of : F → List F → ℕ
  bucket_of value [] = 0
  bucket_of value (bound ∷ bounds) =
      let rest = bucket_of value bounds in if m.at_most value bound then 0 else suc rest

  -- observe
  unfoldable pub observe : F → Histogram F → Option (Histogram F)
  observe value h = elim (increment_at (bucket_of value h.bounds) h.counts) [
    | none ↦ none
    | some counts ↦
        some
          (record h { counts = counts; count = (h.count + 1) % word_mod; sum = m.add h.sum value })
  ]

  -- snapshot of a histogram
  unfoldable pub histogram_snapshot : Histogram F → HistogramSnapshot F
  histogram_snapshot h = record {
    count = h.count;
    sum = h.sum;
    average = if ltb 0 h.count then m.divide h.sum h.count else m.zero;
    bounds = h.bounds;
    bucket_counts = h.counts;
  }

  -- IncCounter
  unfoldable pub inc_counter : String → ℤ → Registry F → Registry F
  inc_counter name delta r = if eqb_ℤ delta (pos 0) then r else record r {
    counters =
        put_name name (add_int64 (or_default (pos 0) (find_name name r.counters)) delta) r.counters;
  }

  -- SetGauge
  unfoldable pub set_gauge : String → ℤ → Registry F → Registry F
  set_gauge name value r = record r { gauges = put_name name value r.gauges }

  -- AddGauge
  unfoldable pub add_gauge : String → ℤ → Registry F → Registry F
  add_gauge name delta r = if eqb_ℤ delta (pos 0) then r else record r {
    gauges =
        put_name name (add_int64 (or_default (pos 0) (find_name name r.gauges)) delta) r.gauges;
  }

  -- ObserveMilliseconds
  unfoldable pub observe_milliseconds : String → F → Registry F → Option (Registry F)
  observe_milliseconds name value r =
      if m.is_usable value
      then elim (observe value (or_default new_histogram (find_name name r.histograms))) [
        | none ↦ none
        | some h ↦ some (record r { histograms = put_name name h r.histograms })
      ]
      else some r

-- The operations of a registry, in any order.
pub data Operation (F : Type 0) : Type 0 where
  counts_up : String → ℤ → Operation F
  sets : String → ℤ → Operation F
  adds : String → ℤ → Operation F
  observes : String → F → Operation F

module _ {F : Type 0} (m : Measures F) where
  unfoldable pub operate : Operation F → Registry F → Option (Registry F)
  operate (counts_up name delta) r = some (inc_counter m name delta r)
  operate (sets name value) r = some (set_gauge m name value r)
  operate (adds name delta) r = some (add_gauge m name delta r)
  operate (observes name value) r = observe_milliseconds m name value r

  unfoldable pub operate_all : List (Operation F) → Registry F → Option (Registry F)
  operate_all [] r = some r
  operate_all (o ∷ os) r = elim (operate o r) [ none ↦ none | some r' ↦ operate_all os r' ]
