-- ===== src/Usage/Metrics.antt =====
-- Six counters that agree with each other, and `normalize`.
use isekai_memory.Base.{
  ◌+◌, Bool, ◌&&◌, ◌||◌, not, Option, none, some, List, [], ◌∷◌, ltb, ◌==◌, if◌then◌else◌, is_some,
}
use isekai_memory.Base.Int.{pos, integer}
use isekai_memory.Usage.Counters.{
  Counter, counter, comparable, amount, unavailable_for, not_reported, ambiguous,
}

-- The `FIELDS`, in order.
pub record Metrics : Type 0 where
  pub input_total_tokens : Counter
  pub output_total_tokens : Counter
  pub total_tokens : Counter
  pub cache_read_input_tokens : Counter
  pub cache_write_input_tokens : Counter
  pub reasoning_output_tokens : Counter

abbrev pub counters : Metrics → List Counter
counters m =
    m.input_total_tokens ∷ m.output_total_tokens ∷ m.total_tokens ∷ m.cache_read_input_tokens
    ∷ m.cache_write_input_tokens ∷ m.reasoning_output_tokens ∷ []

-- `parent.comparable(subset) and subset.value > parent.value`
unfoldable pub exceeds : Counter → Counter → Bool
exceeds parent subset = comparable parent subset && ltb (amount parent) (amount subset)

-- `__post_init__` of `Metrics`: false if one of its three tests raises.
unfoldable pub is_consistent : Metrics → Bool
is_consistent m =
    let incoming = m.input_total_tokens in
    let outgoing = m.output_total_tokens in
    let total = m.total_tokens in
    let cache_read = m.cache_read_input_tokens in
    let cache_write = m.cache_write_input_tokens in
    not (
      comparable incoming outgoing
      && comparable total incoming
      && not (amount total == amount incoming + amount outgoing))
    && not (
        exceeds total incoming
        || exceeds total outgoing
        || exceeds incoming cache_read
        || exceeds incoming cache_write
        || exceeds outgoing m.reasoning_output_tokens)
    && not (
        comparable incoming cache_read
        && comparable incoming cache_write
        && ltb (amount incoming) (amount cache_read + amount cache_write))

-- `Metrics(...)`
abbrev pub metrics : Metrics → Option Metrics
metrics m = if is_consistent m then some m else none

-- The dict that `normalize` takes: each field is given or not.
pub record Fields : Type 0 where
  pub input_total_tokens : Option Counter
  pub output_total_tokens : Option Counter
  pub total_tokens : Option Counter
  pub cache_read_input_tokens : Option Counter
  pub cache_write_input_tokens : Option Counter
  pub reasoning_output_tokens : Option Counter

-- `fields.get(name, unavailable())`
abbrev pub given : Option Counter → Counter
given (some c) = c
given none = unavailable_for not_reported

-- The total: given, derived or unavailable. `none` is the `ValueError` of a sum out of range.
unfoldable pub total_of : Option Counter → Counter → Counter → Option Counter
total_of (some c) incoming outgoing = some c
total_of none incoming outgoing =
    if comparable incoming outgoing
    then counter (some (integer (pos (amount incoming + amount outgoing)))) incoming.quality
        incoming.estimate_method none
    else if is_some incoming.value && is_some outgoing.value
    then some (unavailable_for ambiguous)
    else some (unavailable_for not_reported)

unfoldable pub normalize : Fields → Option Metrics
normalize f =
    let incoming = given f.input_total_tokens in
    let outgoing = given f.output_total_tokens in
    elim (total_of f.total_tokens incoming outgoing) [
      | none ↦ none
      | some total ↦ metrics (record {
        input_total_tokens = incoming;
        output_total_tokens = outgoing;
        total_tokens = total;
        cache_read_input_tokens = given f.cache_read_input_tokens;
        cache_write_input_tokens = given f.cache_write_input_tokens;
        reasoning_output_tokens = given f.reasoning_output_tokens;
      })
    ]
