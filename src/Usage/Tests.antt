-- ===== src/Usage/Tests.antt =====
-- Runs of the counter arithmetic, and the theorems at concrete snapshots.
use isekai_memory.Base.{ℕ, ◌+◌, ◌≡◌, refl, true, false, none, some, List, [], ◌∷◌}
use mathlib.Core.Option
use isekai_memory.Base.Int.{pos, negsuc, integer}
use isekai_memory.Usage.Counters.{
  Counter, reported, estimated, unavailable, prompt_length_div4, not_reported, counter, comparable,
  unavailable_for, ambiguous,
}
use isekai_memory.Usage.Metrics.{Metrics, Fields, normalize, is_consistent, exceeds, total_of}
use isekai_memory.Usage.Normal.{Keeps, normalize-Keeps, normalize_idem, all_fields}
use isekai_memory.Usage.Revision.{validate_revision, is_revision}
use isekai_memory.Usage.Aggregate.{
  total, totals, sum, methods, has_method, reasons, count_reason, count_counter, count_counters,
}
use isekai_memory.Usage.Aggregate.Sums.{value_of}

abbrev tokens : ℕ → Counter
tokens n = record {
  value = some n;
  quality = reported;
  estimate_method = none;
  omission_reason = none;
}

abbrev guess : ℕ → Counter
guess n = record {
  value = some n;
  quality = estimated;
  estimate_method = some prompt_length_div4;
  omission_reason = none;
}

abbrev sent : ℕ → ℕ → Fields
sent i o = record {
  input_total_tokens = some (tokens i);
  output_total_tokens = some (tokens o);
  total_tokens = none;
  cache_read_input_tokens = some (tokens 1);
  cache_write_input_tokens = none;
  reasoning_output_tokens = none;
}

abbrev snapshot : ℕ → ℕ → Metrics
snapshot i o = record {
  input_total_tokens = tokens i;
  output_total_tokens = tokens o;
  total_tokens = tokens (i + o);
  cache_read_input_tokens = tokens 1;
  cache_write_input_tokens = unavailable_for not_reported;
  reasoning_output_tokens = unavailable_for not_reported;
}

-- A fabricated zero, a negative count, and a method on a reported count are refused.
refused_counters :
    (counter (some (integer (pos 0))) unavailable none (some not_reported) ≡ none)
    × (counter (some (integer (negsuc 2))) reported none none ≡ none)
    × (counter (some (integer (pos 7))) reported (some prompt_length_div4) none ≡ none)
unfolding counter
refused_counters = (refl, refl, refl)

sent_7_5 : normalize (sent 7 5) ≡ some (snapshot 7 5)
unfolding normalize total_of is_consistent exceeds comparable counter
sent_7_5 = refl

-- A cache larger than the input.
inconsistent : normalize (sent 0 5) ≡ none
unfolding normalize total_of is_consistent exceeds comparable counter
inconsistent = refl

-- Different qualities give no total.
mixed :
    Option.map
      (λ (m : Metrics). m.total_tokens)
      (normalize (record (sent 7 5) { output_total_tokens = some (guess 5) }))
    ≡ some (unavailable_for ambiguous)
unfolding normalize total_of is_consistent exceeds comparable counter
mixed = refl

kept_counters :
    Keeps (some (tokens 7)) (tokens 7)
    × Keeps (some (tokens 5)) (tokens 5)
    × Keeps none (tokens 12)
    × Keeps (some (tokens 1)) (tokens 1)
    × Keeps none (unavailable_for not_reported)
    × Keeps none (unavailable_for not_reported)
    × (is_consistent (snapshot 7 5) ≡ true)
kept_counters = normalize-Keeps (sent 7 5) (snapshot 7 5) sent_7_5

normalized_twice : normalize (all_fields (snapshot 7 5)) ≡ some (snapshot 7 5)
normalized_twice = normalize_idem (sent 7 5) (snapshot 7 5) sent_7_5

reset_refused : validate_revision (snapshot 7 5) (snapshot 7 4) ≡ false
unfolding validate_revision is_revision comparable
reset_refused = refl

abbrev units : List Metrics
units = snapshot 7 5 ∷ record (snapshot 9 8) { total_tokens = guess 20 } ∷ []

totals_of_units :
    (value_of (totals reported total units) ≡ 12)
    × (value_of (totals estimated total units) ≡ 20)
    × ((totals reported total units).missing_units ≡ 1)
    × (reasons units [] ≡ (not_reported, 4) ∷ [])
unfolding totals sum methods has_method reasons count_reason count_counter count_counters
totals_of_units = (refl, refl, refl, refl)
