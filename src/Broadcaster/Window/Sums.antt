-- ===== src/Broadcaster/Window/Sums.antt =====
-- Sums over an array of counts, and sums of 64-bit patterns.
use solana_dashboard.Common.{
  ℕ, zero, suc, ◌+◌, ◌%◌, ◌≤◌, ◌<◌, ◌≡◌, ◌≢◌, refl, inl, inr, arith, ◌==◌, Bool-cases,
}
use solana_dashboard.Common.Int.{word_mod}

abbrev pub sum_from : (ℕ → ℕ) → ℕ → ℕ → ℕ
sum_from g zero i = 0
sum_from g (suc n) i = g i + sum_from g n (suc i)

sum_from-same :
    (g g' : ℕ → ℕ) (k n i : ℕ)
    → ((j : ℕ) → j ≢ k → g' j ≡ g j)
    → k < i
    → sum_from g' n i ≡ sum_from g n i
sum_from-same g g' k zero i h l = refl
sum_from-same g g' k (suc n) i h l =
    omega (arith, h i (λ e. omega arith), sum_from-same g g' k n (suc i) h (omega arith))

-- Changing one term changes the sum by the difference.
sum_from-update :
    (g g' : ℕ → ℕ) (k n i : ℕ)
    → ((j : ℕ) → j ≢ k → g' j ≡ g j)
    → i ≤ k
    → k < i + n
    → sum_from g' n i + g k ≡ sum_from g n i + g' k
sum_from-update g g' k zero i h l u = absurd (omega arith)
sum_from-update g g' k (suc n) i h l u = elim (Bool-cases (i == k)) [
  | inl e ↦
      let e' : i ≡ k = ground arith in
      rw e' (omega (arith, sum_from-same g g' k n (suc k) h (omega arith)))
  | inr e ↦
      let d : i ≢ k = ground arith in
      omega (arith, h i d, sum_from-update g g' k n (suc i) h (omega arith) (omega arith))
]

pub array_sum-update :
    (g g' : ℕ → ℕ) (k : ℕ)
    → ((j : ℕ) → j ≢ k → g' j ≡ g j)
    → k < 300
    → sum_from g' 300 0 + g k ≡ sum_from g 300 0 + g' k
array_sum-update g g' k h u = sum_from-update g g' k 300 0 h (omega arith) u

-- Sums of 64-bit patterns.
pub regroup :
    (a a' b c : ℕ)
    → a % word_mod ≡ (a' + b) % word_mod
    → (a + c) % word_mod ≡ (a' + (b + c)) % word_mod
regroup a a' b c h = omega arith

pub nothing_added : (a : ℕ) → a % word_mod ≡ (a + 0) % word_mod
nothing_added a = omega arith

pub replaced :
    (total s s' g g' d t : ℕ)
    → total % word_mod ≡ (s' + t) % word_mod
    → s' + g ≡ s + g'
    → g' % word_mod ≡ (g + (d + 0)) % word_mod
    → total % word_mod ≡ (s + (d + t)) % word_mod
replaced total s s' g g' d t h k l = omega arith

pub totals :
    (counted c s s0 t : ℕ)
    → counted % word_mod ≡ (c + s) % word_mod
    → c ≡ 0
    → s % word_mod ≡ (s0 + t) % word_mod
    → s0 ≡ 0
    → counted % word_mod ≡ t % word_mod
totals counted c s s0 t h k l m = omega arith
