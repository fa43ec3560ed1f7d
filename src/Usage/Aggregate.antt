-- ===== src/Usage/Aggregate.antt =====
-- `aggregate`: the sums over a set of snapshots, for each quality and field.
pub mod Sums
use isekai_memory.Base.{
  ℕ, ◌+◌, ◌-◌, Bool, true, false, ◌&&◌, ◌||◌, Option, none, some, List, [], ◌∷◌, ◌++◌, ltb, ◌==◌,
  if◌then◌else◌, length, select, any, map,
}
use isekai_memory.Usage.Counters.{
  Counter, Quality, reported, estimated, unavailable, Method, prompt_length_div4, provider_estimate,
  Reason, is_quality, method_index, amount, not_reported, unsupported, truncated, ambiguous,
  not_observed, awaiting_result, invalid_report, not_applicable, outside_scope, other_reason,
}
use isekai_memory.Usage.Metrics.{Metrics, counters}

-- An index into `FIELDS`.
pub data Field : Type 0 where
  input_total output_total total cache_read cache_write reasoning : Field

abbrev pub counter_of : Field → Metrics → Counter
counter_of input_total m = m.input_total_tokens
counter_of output_total m = m.output_total_tokens
counter_of total m = m.total_tokens
counter_of cache_read m = m.cache_read_input_tokens
counter_of cache_write m = m.cache_write_input_tokens
counter_of reasoning m = m.reasoning_output_tokens

pub data Coverage : Type 0 where
  no_observations complete partial : Coverage

pub record Totals : Type 0 where
  pub value : Option ℕ
  pub known_units : ℕ
  pub missing_units : ℕ
  pub coverage : Coverage
  pub estimate_methods : List Method

pub record Aggregate : Type 0 where
  pub observed_units : ℕ
  pub reported_totals : Field → Totals
  pub estimated_totals : Field → Totals
  pub unavailable_field_counts : List (Reason × ℕ)

-- `MAX_AGGREGATE_UNITS`
abbrev pub max_aggregate_units : ℕ
max_aggregate_units = 10_000

-- `[item.counters[index] for item in snapshots if … == quality]`
abbrev pub known : Quality → Field → List Metrics → List Counter
known q i snapshots = select (is_quality q) (map (counter_of i) snapshots)

-- `sum(value.value for value in known)`
unfoldable pub sum : List Counter → ℕ
sum [] = 0
sum (c ∷ cs) = amount c + sum cs

abbrev total_value : List Counter → Option ℕ
total_value [] = none
total_value (c ∷ cs) = some (sum (c ∷ cs))

abbrev coverage_of : ℕ → ℕ → Coverage
coverage_of known_units units =
    if units == 0 then no_observations else if known_units == units then complete else partial

unfoldable pub has_method : Method → List Counter → Bool
has_method m = any (λ c. method_index c.estimate_method == method_index (some m))

-- `sorted({...})`: the two names of `METHODS` in order.
unfoldable pub methods : List Counter → List Method
methods cs =
    (if has_method prompt_length_div4 cs then prompt_length_div4 ∷ [] else [])
    ++ (if has_method provider_estimate cs then provider_estimate ∷ [] else [])

abbrev is_estimated : Quality → Bool
is_estimated estimated = true
is_estimated _ = false

-- `totals[name]`
unfoldable pub totals : Quality → Field → List Metrics → Totals
totals q i snapshots =
    let cs = known q i snapshots in
    record {
      value = total_value cs;
      known_units = length cs;
      missing_units = length snapshots - length cs;
      coverage = coverage_of (length cs) (length snapshots);
      estimate_methods = if is_estimated q then methods cs else [];
    }

-- A number for each reason, to compare by.
abbrev pub reason_index : Reason → ℕ
reason_index not_reported = 0
reason_index unsupported = 1
reason_index truncated = 2
reason_index ambiguous = 3
reason_index not_observed = 4
reason_index awaiting_result = 5
reason_index invalid_report = 6
reason_index not_applicable = 7
reason_index outside_scope = 8
reason_index other_reason = 9

-- `reasons[reason] = reasons.get(reason, 0) + 1`
unfoldable pub count_reason : Reason → List (Reason × ℕ) → List (Reason × ℕ)
count_reason k [] = (k, 1) ∷ []
count_reason k ((j, n) ∷ d) =
    if reason_index j == reason_index k then (j, n + 1) ∷ d else (j, n) ∷ count_reason k d

unfoldable pub count_counter : Counter → List (Reason × ℕ) → List (Reason × ℕ)
count_counter c d =
    if is_quality unavailable c
    then elim c.omission_reason [ some r ↦ count_reason r d | none ↦ d ]
    else d

unfoldable pub count_counters : List Counter → List (Reason × ℕ) → List (Reason × ℕ)
count_counters [] d = d
count_counters (c ∷ cs) d = count_counters cs (count_counter c d)

unfoldable pub reasons : List Metrics → List (Reason × ℕ) → List (Reason × ℕ)
reasons [] d = d
reasons (m ∷ snapshots) d = reasons snapshots (count_counters (counters m) d)

-- The `result` that is filled in.
unfoldable pub summary : List Metrics → Aggregate
summary snapshots = record {
  observed_units = length snapshots;
  reported_totals = λ i. totals reported i snapshots;
  estimated_totals = λ i. totals estimated i snapshots;
  unavailable_field_counts = reasons snapshots [];
}

-- `none` is the `ValueError` of too many snapshots.
unfoldable pub aggregate : List Metrics → Option Aggregate
unfolding summary
aggregate snapshots =
    if ltb max_aggregate_units (length snapshots) then none else some (summary snapshots)
