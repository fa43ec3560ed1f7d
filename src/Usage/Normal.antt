-- ===== src/Usage/Normal.antt =====
-- What `normalize` keeps, derives and guarantees.
use isekai_memory.Base.{◌+◌, ◌≤◌, ◌≡◌, refl, true, Option, none, some, arith}
use isekai_memory.Usage.Counters.{
  Counter, comparable, amount, counter, comparable_parts, max_tokens,
}
use isekai_memory.Usage.Metrics.{Metrics, is_consistent, Fields, given, total_of, normalize}

-- A field that was given is the counter in the snapshot.
abbrev pub Keeps : Option Counter → Counter → Type 0
Keeps none c = Unit
Keeps (some d) c = c ≡ d

total_of-Keeps : (o : Option Counter) (a b c : Counter) → total_of o a b ≡ some c → Keeps o c
unfolding total_of
total_of-Keeps none a b c e = tt
total_of-Keeps (some d) a b c e = ground arith

Keeps-given : (o : Option Counter) → Keeps o (given o)
Keeps-given none = tt
Keeps-given (some c) = refl

normalize_parts :
    (f : Fields) (m : Metrics)
    → normalize f ≡ some m
    → (total_of f.total_tokens m.input_total_tokens m.output_total_tokens ≡ some m.total_tokens)
      × (m.input_total_tokens ≡ given f.input_total_tokens)
      × (m.output_total_tokens ≡ given f.output_total_tokens)
      × (m.cache_read_input_tokens ≡ given f.cache_read_input_tokens)
      × (m.cache_write_input_tokens ≡ given f.cache_write_input_tokens)
      × (m.reasoning_output_tokens ≡ given f.reasoning_output_tokens)
      × (is_consistent m ≡ true)
unfolding normalize
normalize_parts f m e = ground arith

-- A normalized snapshot has every counter that was given, and its counters agree with each other.
pub normalize-Keeps :
    (f : Fields) (m : Metrics)
    → normalize f ≡ some m
    → Keeps f.input_total_tokens m.input_total_tokens
      × Keeps f.output_total_tokens m.output_total_tokens
      × Keeps f.total_tokens m.total_tokens
      × Keeps f.cache_read_input_tokens m.cache_read_input_tokens
      × Keeps f.cache_write_input_tokens m.cache_write_input_tokens
      × Keeps f.reasoning_output_tokens m.reasoning_output_tokens
      × (is_consistent m ≡ true)
normalize-Keeps f m e =
    let (t, a, b, c, d, r, h) = normalize_parts f m e in
    (
      rw a (Keeps-given f.input_total_tokens),
      rw b (Keeps-given f.output_total_tokens),
      total_of-Keeps f.total_tokens _ _ m.total_tokens t,
      rw c (Keeps-given f.cache_read_input_tokens),
      rw d (Keeps-given f.cache_write_input_tokens),
      rw r (Keeps-given f.reasoning_output_tokens),
      h,
    )

-- In a consistent snapshot a total that is comparable to both sides is their sum.
pub is_consistent-sum :
    (m : Metrics)
    → is_consistent m ≡ true
    → comparable m.input_total_tokens m.output_total_tokens ≡ true
    → comparable m.total_tokens m.input_total_tokens ≡ true
    → amount m.total_tokens ≡ amount m.input_total_tokens + amount m.output_total_tokens
unfolding is_consistent
is_consistent-sum m h a b = ground arith

derived_total :
    (a b c : Counter)
    → comparable a b ≡ true
    → total_of none a b ≡ some c
    → (amount c ≡ amount a + amount b)
      × (c.quality ≡ a.quality)
      × (c.estimate_method ≡ a.estimate_method)
      × (amount c ≤ max_tokens)
unfolding total_of counter
derived_total a b c h e = ground (arith, comparable_parts a b h)

-- The total that `normalize` derives from comparable input and output is their sum, of the same
-- quality and method, and within the bound.
pub normalize-total :
    (f : Fields) (m : Metrics)
    → normalize f ≡ some m
    → f.total_tokens ≡ none
    → comparable m.input_total_tokens m.output_total_tokens ≡ true
    → (amount m.total_tokens ≡ amount m.input_total_tokens + amount m.output_total_tokens)
      × (m.total_tokens.quality ≡ m.input_total_tokens.quality)
      × (m.total_tokens.estimate_method ≡ m.input_total_tokens.estimate_method)
      × (amount m.total_tokens ≤ max_tokens)
normalize-total f m e a b =
    derived_total m.input_total_tokens m.output_total_tokens m.total_tokens b
      (rw a at (normalize_parts f m e).0)

-- The fields of a snapshot.
abbrev pub all_fields : Metrics → Fields
all_fields m = record {
  input_total_tokens = some m.input_total_tokens;
  output_total_tokens = some m.output_total_tokens;
  total_tokens = some m.total_tokens;
  cache_read_input_tokens = some m.cache_read_input_tokens;
  cache_write_input_tokens = some m.cache_write_input_tokens;
  reasoning_output_tokens = some m.reasoning_output_tokens;
}

-- Normalizing all six counters of a normalized snapshot returns that snapshot.
pub normalize_idem :
    (f : Fields) (m : Metrics) → normalize f ≡ some m → normalize (all_fields m) ≡ some m
unfolding normalize total_of
normalize_idem f m e = rw (normalize_parts f m e).6
