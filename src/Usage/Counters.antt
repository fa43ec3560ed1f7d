-- ===== src/Usage/Counters.antt =====
-- One counter: a value with its quality, or the reason why there is none.
use isekai_memory.Base.{
  ℕ, ◌≤◌, ◌≡◌, Bool, true, false, ◌&&◌, ◌||◌, not, Option, none, some, arith, leb, ◌==◌,
  if◌then◌else◌, is_some,
}
use isekai_memory.Base.Int.{pos, Number, integer}

-- `other_quality` is a string outside `QUALITIES`, and so on.
pub data Quality : Type 0 where
  reported estimated unavailable other_quality : Quality

pub data Method : Type 0 where
  prompt_length_div4 provider_estimate other_method : Method

pub data Reason : Type 0 where
  not_reported unsupported truncated ambiguous not_observed awaiting_result invalid_report : Reason
  not_applicable outside_scope other_reason : Reason

-- `MAX_TOKENS`
abbrev pub max_tokens : ℕ
max_tokens = 1_000_000_000_000

pub record Counter : Type 0 where
  pub value : Option ℕ
  pub quality : Quality
  pub estimate_method : Option Method
  pub omission_reason : Option Reason

abbrev pub quality_index : Quality → ℕ
quality_index reported = 0
quality_index estimated = 1
quality_index unavailable = 2
quality_index other_quality = 3

abbrev pub method_index : Option Method → ℕ
method_index none = 0
method_index (some prompt_length_div4) = 1
method_index (some provider_estimate) = 2
method_index (some other_method) = 3

abbrev pub is_quality : Quality → Counter → Bool
is_quality q c = quality_index c.quality == quality_index q

-- `reason in REASONS`
abbrev is_reason : Option Reason → Bool
is_reason none = false
is_reason (some other_reason) = false
is_reason (some _) = true

-- `method in METHODS`
abbrev is_method : Option Method → Bool
is_method m = leb 1 (method_index m) && leb (method_index m) 2

-- `type(value) is int and 0 <= value <= MAX_TOKENS`, with the value.
abbrev token_count : Option Number → Option ℕ
token_count (some (integer (pos n))) = if leb n max_tokens then some n else none
token_count _ = none

-- The counter of a known quality, once its method is accepted.
abbrev known_counter : Option Number → Quality → Option Method → Option Reason → Option Counter
known_counter value quality method reason = elim (token_count value) [
  | none ↦ none
  | some n ↦
      if is_some reason
      then none
      else some (record {
        value = some n;
        quality = quality;
        estimate_method = method;
        omission_reason = none;
      })
]

-- `Counter(...)` with `__post_init__`; `none` is its `ValueError`.
unfoldable pub counter : Option Number → Quality → Option Method → Option Reason → Option Counter
counter value other_quality method reason = none
counter value unavailable method reason =
    if is_some value || is_some method || not (is_reason reason)
    then none
    else some (record {
      value = none;
      quality = unavailable;
      estimate_method = none;
      omission_reason = reason;
    })
counter value reported method reason =
    if is_some method then none else known_counter value reported method reason
counter value estimated method reason =
    if is_method method then known_counter value estimated method reason else none

-- `unavailable(reason)`
abbrev pub unavailable_for : Reason → Counter
unavailable_for reason = record {
  value = none;
  quality = unavailable;
  estimate_method = none;
  omission_reason = some reason;
}

-- `self.comparable(other)`
unfoldable pub comparable : Counter → Counter → Bool
comparable a b =
    not (is_quality unavailable a)
    && quality_index a.quality == quality_index b.quality
    && method_index a.estimate_method == method_index b.estimate_method

-- `counter.value` where the code does arithmetic with it; comparable counters have one.
abbrev pub amount : Counter → ℕ
amount c = elim c.value [ some n ↦ n | none ↦ 0 ]

-- What `__post_init__` lets through.
pub record IsCounter (c : Counter) : Type 0 where
  pub in_range : amount c ≤ max_tokens
  pub has_value : is_some c.value ≡ not (is_quality unavailable c)
  pub has_reason : is_some c.omission_reason ≡ is_quality unavailable c
  pub has_method : is_some c.estimate_method ≡ is_quality estimated c

-- A counter that is constructed has the given quality, method and reason. It has a value exactly if it is available, a reason exactly if it is not, and a method
-- exactly if it is an estimate; its value is within `MAX_TOKENS`.
pub counter-IsCounter :
    (value : Option Number) (q : Quality) (m : Option Method) (r : Option Reason) (c : Counter)
    → counter value q m r ≡ some c
    → IsCounter c × (c.quality ≡ q) × (c.estimate_method ≡ m) × (c.omission_reason ≡ r)
unfolding counter
counter-IsCounter value reported m r c e = ground arith
counter-IsCounter value estimated m r c e = ground arith
counter-IsCounter value unavailable m r c e = ground arith
counter-IsCounter value other_quality m r c e = cc

-- What is comparable has the same quality and method, so it is comparable both ways.
pub comparable_parts :
    (a b : Counter)
    → comparable a b ≡ true
    → (quality_index a.quality ≡ quality_index b.quality)
      × (method_index a.estimate_method ≡ method_index b.estimate_method)
      × (is_quality unavailable a ≡ false)
unfolding comparable
comparable_parts a b h = ground arith

pub comparable_of_parts :
    (a b : Counter)
    → quality_index a.quality ≡ quality_index b.quality
    → method_index a.estimate_method ≡ method_index b.estimate_method
    → is_quality unavailable a ≡ false
    → comparable a b ≡ true
unfolding comparable
comparable_of_parts a b p q h = ground arith
