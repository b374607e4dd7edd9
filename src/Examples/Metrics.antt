-- ===== src/Examples/Metrics.antt =====
-- A metrics registry whose values are whole numbers.
use solana_dashboard.Common.{ℕ, ◌+◌, ◌/◌, ◌%◌, ◌≡◌, String, some, true, List, [], ◌∷◌, leb}
use solana_dashboard.Common.Int.{pos, word_mod}
use solana_dashboard.Observability.{
  Measures, Registry, Operation, counts_up, sets, adds, observes, new_registry, operate_all,
}
use solana_dashboard.Observability.Sound.{AllSound, count_of, seen, operate_all-AllSound}

abbrev whole_numbers : Measures ℕ
whole_numbers = record {
  zero = 0;
  add = λ a b. a + b;
  at_most = leb;
  is_usable = λ a. true;
  divide = λ a n. a / n;
  of_number = λ n. n;
}

abbrev operations : List (Operation ℕ)
operations =
    counts_up "events_total" (pos 2)
    ∷ observes "latency_ms" 7
    ∷ sets "lag" (pos 4)
    ∷ observes "latency_ms" 6000
    ∷ adds "lag" (pos 1)
    ∷ []

operate_all-AllSound_example :
    (r : Registry ℕ) × (operate_all whole_numbers operations (new_registry whole_numbers) ≡ some r)
    × AllSound whole_numbers r
    × ((name : String)
        → count_of whole_numbers name r % word_mod ≡ seen whole_numbers name operations % word_mod)
operate_all-AllSound_example = operate_all-AllSound whole_numbers operations
