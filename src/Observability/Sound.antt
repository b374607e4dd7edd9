-- ===== src/Observability/Sound.antt =====
-- The histograms of the metrics registry stay in range and add up.
use solana_dashboard.Common.{
  ℕ, zero, suc, ◌+◌, ◌%◌, ◌≤◌, ◌<◌, ◌≡◌, refl, sym, ap, ◌∙◌, subst, String, Bool, true, false, ◌&&◌,
  Option, none, some, List, [], ◌∷◌, str_eq, eq_iff, if◌then◌else◌, length, arith, Bool-cases,
  Option-cases, inl, inr,
}
use solana_dashboard.Common.Int.{ℤ, pos, eqb_ℤ, word_mod}
use solana_dashboard.Observability.{
  Measures, Histogram, Registry, Operation, counts_up, sets, adds, observes, find_name, put_name,
  or_default, increment_at, new_registry, new_histogram, bucket_of, observe, inc_counter, set_gauge,
  add_gauge, observe_milliseconds, operate, operate_all,
}

abbrev pub total : List ℕ → ℕ
total [] = 0
total (c ∷ cs) = c + total cs

find-put :
    {A : Type 0} (k name : String) (a : A) (xs : List (String × A))
    → find_name k (put_name name a xs) ≡ (if str_eq name k then some a else find_name k xs)
find-put k name a [] = refl
find-put k name a ((key, old) ∷ xs) =
    ground (arith, eq_iff key name, eq_iff key k, eq_iff name k, find-put k name a xs)

increment_lem :
    (i : ℕ) (cs : List ℕ)
    → i < length cs
    → (cs' : List ℕ) × (increment_at i cs ≡ some cs')
      × (length cs' ≡ length cs)
      × (total cs' % word_mod ≡ (total cs + 1) % word_mod)
increment_lem i [] h = absurd (omega arith)
increment_lem zero (c ∷ cs) h = (_, refl, refl, omega arith)
increment_lem (suc i) (c ∷ cs) h =
    let (cs', e, l, t) = increment_lem i cs (omega arith) in
    (c ∷ cs', rw e refl, ap suc l, omega (arith, t))

module _ {F : Type 0} (m : Measures F) where
  bucket_of-length : (value : F) (bounds : List F) → bucket_of m value bounds ≤ length bounds
  bucket_of-length value [] = omega arith
  bucket_of-length value (b ∷ bs) = ground (arith, bucket_of-length value bs)

  -- One count for each bound and one above them all, and the counts add up.
  pub record IsSound (h : Histogram F) : Type 0 where
    pub one_more : length h.counts ≡ suc (length h.bounds)
    pub adds_up : total h.counts % word_mod ≡ h.count

  observe-IsSound :
      (value : F) (h : Histogram F)
      → IsSound h
      → (h' : Histogram F) × (observe m value h ≡ some h')
        × IsSound h'
        × (h'.count ≡ (h.count + 1) % word_mod)
  unfolding observe
  observe-IsSound value h s =
      let (cs, e, l, t) =
        increment_lem (bucket_of m value h.bounds) h.counts
          (omega (arith, bucket_of-length value h.bounds, s.one_more)) in
      (
        record h { counts = cs; count = (h.count + 1) % word_mod; sum = m.add h.sum value },
        rw (e, observe) refl,
        record { one_more = l ∙ s.one_more; adds_up = omega (arith, t, s.adds_up) },
        refl,
      )

  new_histogram-IsSound : IsSound (new_histogram m)
  unfolding new_histogram
  new_histogram-IsSound = record { one_more = refl; adds_up = refl }

  abbrev pub held : Option (Histogram F) → ℕ
  held none = 0
  held (some h) = h.count

  abbrev pub count_of : String → Registry F → ℕ
  count_of name r = held (find_name name r.histograms)

  abbrev pub AllSound : Registry F → Type 0
  AllSound r = (name : String) (h : Histogram F) → find_name name r.histograms ≡ some h → IsSound h

  -- How often a name was observed with a usable value.
  abbrev seen_by : String → Operation F → ℕ
  seen_by name (counts_up _ _) = 0
  seen_by name (sets _ _) = 0
  seen_by name (adds _ _) = 0
  seen_by name (observes other value) = if str_eq other name && m.is_usable value then 1 else 0

  abbrev pub seen : String → List (Operation F) → ℕ
  seen name [] = 0
  seen name (o ∷ os) = seen_by name o + seen name os

  Follows : Operation F → Registry F → Registry F → Type 0
  Follows o r r' =
      AllSound r'
      × ((name : String)
          → count_of name r' % word_mod ≡ (count_of name r + seen_by name o) % word_mod)

  default-IsSound :
      (name : String) (r : Registry F)
      → AllSound r
      → IsSound (or_default (new_histogram m) (find_name name r.histograms))
  default-IsSound name r sound = elim (Option-cases (find_name name r.histograms)) [
    | inl e ↦ rw e new_histogram-IsSound
    | inr (h, e) ↦ rw e (sound name h e)
  ]

  default-held :
      (found : Option (Histogram F)) → (or_default (new_histogram m) found).count ≡ held found
  unfolding new_histogram
  default-held none = refl
  default-held (some h) = refl

  -- The counts of two names in a table of which one entry was written.
  counted_with :
      (same usable : Bool) (old : ℕ) (h : Histogram F) (found : Option (Histogram F))
      → usable ≡ true
      → h.count ≡ (old + 1) % word_mod
      → (same ≡ true → old ≡ held found)
      → held (if same then some h else found) % word_mod
        ≡ (held found + (if same && usable then 1 else 0)) % word_mod
  counted_with true usable old h found e c s = rw e (omega (arith, c, s refl))
  counted_with false usable old h found e c s = omega arith

  observed :
      (name : String) (value : F) (r : Registry F) (h : Histogram F)
      → AllSound r
      → m.is_usable value ≡ true
      → IsSound h
      → h.count ≡ (count_of name r + 1) % word_mod
      → Follows (observes name value) r (record r { histograms = put_name name h r.histograms })
  unfolding Follows new_histogram
  observed name value r h sound usable good more = (
    λ other g e. elim (Bool-cases (str_eq name other)) [
      | inl b ↦ subst IsSound (ground (arith, e, b, find-put other name h r.histograms)) good
      | inr b ↦ sound other g (ground (arith, e, b, find-put other name h r.histograms))
    ],
    λ other.
        ap (λ t. held t % word_mod) (find-put other name h r.histograms)
        ∙ counted_with (str_eq name other) (m.is_usable value) (count_of name r) h
            (find_name other r.histograms) usable more
            (λ b. ap (λ n. count_of n r) ((eq_iff name other).0 b)),
  )

  observe_step :
      (name : String) (value : F) (r : Registry F)
      → AllSound r
      → m.is_usable value ≡ true
      → (r' : Registry F) × (observe_milliseconds m name value r ≡ some r')
        × Follows (observes name value) r r'
  unfolding observe_milliseconds
  observe_step name value r sound usable =
      let found = find_name name r.histograms in
      let (h, e, good, more) =
        observe-IsSound value (or_default (new_histogram m) found) (default-IsSound name r sound) in
      (
        record r { histograms = put_name name h r.histograms },
        rw (usable, e) refl,
        observed name value r h sound usable good (omega (arith, more, default-held found)),
      )

  kept :
      (o : Operation F) (r r' : Registry F)
      → AllSound r
      → r'.histograms ≡ r.histograms
      → ((name : String) → seen_by name o ≡ 0)
      → Follows o r r'
  unfolding Follows
  kept o r r' sound same unseen = (
    λ name h e. sound name h (ap (find_name name) (sym same) ∙ e),
    λ name. ap (λ hs. held (find_name name hs) % word_mod) same ∙ omega (arith, unseen name),
  )

  inc_counter-histograms :
      (name : String) (delta : ℤ) (r : Registry F)
      → (inc_counter m name delta r).histograms ≡ r.histograms
  unfolding inc_counter
  inc_counter-histograms name delta r = elim (Bool-cases (eqb_ℤ delta (pos 0))) [
    | inl b ↦ rw b refl
    | inr b ↦ rw b refl
  ]

  add_gauge-histograms :
      (name : String) (delta : ℤ) (r : Registry F)
      → (add_gauge m name delta r).histograms ≡ r.histograms
  unfolding add_gauge
  add_gauge-histograms name delta r = elim (Bool-cases (eqb_ℤ delta (pos 0))) [
    | inl b ↦ rw b refl
    | inr b ↦ rw b refl
  ]

  operate_step :
      (o : Operation F) (r : Registry F)
      → AllSound r
      → (r' : Registry F) × (operate m o r ≡ some r') × Follows o r r'
  unfolding operate set_gauge observe_milliseconds
  operate_step (counts_up name delta) r sound = (
    _,
    refl,
    kept (counts_up name delta) r _ sound (inc_counter-histograms name delta r) (λ other. refl),
  )
  operate_step (sets name value) r sound =
      (_, refl, kept (sets name value) r _ sound refl (λ other. refl))
  operate_step (adds name delta) r sound = (
    _,
    refl,
    kept (adds name delta) r _ sound (add_gauge-histograms name delta r) (λ other. refl),
  )
  operate_step (observes name value) r sound = elim (Bool-cases (m.is_usable value)) [
    | inl usable ↦ observe_step name value r sound usable
    | inr unusable ↦ (
      r,
      rw unusable refl,
      kept (observes name value) r r sound refl (λ other. ground (arith, unusable)),
    )
  ]

  operate_from :
      (os : List (Operation F)) (r : Registry F)
      → AllSound r
      → (r' : Registry F) × (operate_all m os r ≡ some r')
        × AllSound r'
        × ((name : String)
            → count_of name r' % word_mod ≡ (count_of name r + seen name os) % word_mod)
  unfolding operate_all Follows
  operate_from [] r sound = (r, refl, sound, λ name. omega arith)
  operate_from (o ∷ os) r sound =
      let (r1, e1, (sound1, counts1)) = operate_step o r sound in
      let (r2, e2, sound2, counts2) = operate_from os r1 sound1 in
      (r2, rw (e1, operate_all) e2, sound2, λ name. omega (arith, counts1 name, counts2 name))

  -- Whatever counters, gauges and histograms a new registry is asked to write, in whatever order,
  -- no write fails, every histogram has one bucket for each bound and one more,
  -- its buckets add up to its count modulo 2 ^ 64, and that count is the number of values observed
  -- under its name that are numbers not below 0 and not infinite, modulo 2 ^ 64.
  pub operate_all-AllSound :
      (os : List (Operation F))
      → (r : Registry F) × (operate_all m os (new_registry m) ≡ some r)
        × AllSound r
        × ((name : String) → count_of name r % word_mod ≡ seen name os % word_mod)
  unfolding new_registry
  operate_all-AllSound os =
      let (r, e, sound, counts) =
        operate_from os (new_registry m) (λ name h e. ground (arith, e)) in
      (r, e, sound, λ name. omega (arith, counts name))
