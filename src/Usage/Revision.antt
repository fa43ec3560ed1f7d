-- ===== src/Usage/Revision.antt =====
-- `validate_revision`: known data is never reset or downgraded along a chain of revisions.
use isekai_memory.Base.{◌≤◌, ◌≡◌, Bool, true, ◌&&◌, ◌||◌, List, [], ◌∷◌, arith, leb}
use isekai_memory.Usage.Counters.{
  Counter, reported, estimated, unavailable, is_quality, comparable, amount,
}
use isekai_memory.Usage.Metrics.{Metrics, counters}

-- One round of the loop.
unfoldable pub is_revision : Counter → Counter → Bool
is_revision old new =
    is_quality unavailable old
    || is_quality estimated old && is_quality reported new
    || comparable old new && leb (amount old) (amount new)

-- The loop over both tuples, which have six counters each.
are_revisions : List Counter → List Counter → Bool
are_revisions (old ∷ olds) (new ∷ news) = is_revision old new && are_revisions olds news
are_revisions _ _ = true

-- False is the `ValueError`.
unfoldable pub validate_revision : Metrics → Metrics → Bool
unfolding are_revisions
validate_revision previous current = are_revisions (counters previous) (counters current)

is_revision_refl : (c : Counter) → is_revision c c ≡ true
unfolding is_revision comparable
is_revision_refl c = ground arith

is_revision_trans :
    (a b c : Counter) → is_revision a b ≡ true → is_revision b c ≡ true → is_revision a c ≡ true
unfolding is_revision comparable
is_revision_trans a b c h k = ground arith

-- A snapshot is a revision of itself.
pub validate_revision_refl : (m : Metrics) → validate_revision m m ≡ true
unfolding validate_revision
validate_revision_refl m = ground (
  arith,
  is_revision_refl m.input_total_tokens,
  is_revision_refl m.output_total_tokens,
  is_revision_refl m.total_tokens,
  is_revision_refl m.cache_read_input_tokens,
  is_revision_refl m.cache_write_input_tokens,
  is_revision_refl m.reasoning_output_tokens,
)

-- If a snapshot accepts a revision, and that one accepts another, the first snapshot accepts the
-- last one too.
pub validate_revision_trans :
    (a b c : Metrics)
    → validate_revision a b ≡ true
    → validate_revision b c ≡ true
    → validate_revision a c ≡ true
unfolding validate_revision
validate_revision_trans a b c h k = ground (
  arith,
  is_revision_trans a.input_total_tokens b.input_total_tokens c.input_total_tokens,
  is_revision_trans a.output_total_tokens b.output_total_tokens c.output_total_tokens,
  is_revision_trans a.total_tokens b.total_tokens c.total_tokens,
  is_revision_trans a.cache_read_input_tokens b.cache_read_input_tokens c.cache_read_input_tokens,
  is_revision_trans a.cache_write_input_tokens b.cache_write_input_tokens
      c.cache_write_input_tokens,
  is_revision_trans a.reasoning_output_tokens b.reasoning_output_tokens c.reasoning_output_tokens,
)

-- A revision keeps what was reported: the counter stays reported, and does not fall.
pub is_revision_keeps :
    (old new : Counter)
    → is_revision old new ≡ true
    → old.quality ≡ reported
    → (new.quality ≡ reported) × (amount old ≤ amount new)
unfolding is_revision comparable
is_revision_keeps old new h e = ground arith

-- A history: each snapshot is accepted as a revision of the one before.
unfoldable pub is_history : Metrics → List Metrics → Bool
is_history m [] = true
is_history m (n ∷ later) = validate_revision m n && is_history n later

abbrev pub latest : Metrics → List Metrics → Metrics
latest m [] = m
latest m (n ∷ later) = latest n later

is_history-latest :
    (m : Metrics) (later : List Metrics)
    → is_history m later ≡ true
    → validate_revision m (latest m later) ≡ true
unfolding is_history
is_history-latest m [] h = validate_revision_refl m
is_history-latest m (n ∷ later) h =
    validate_revision_trans m n (latest n later) (ground arith)
      (is_history-latest n later (ground arith))

-- However often a snapshot is revised, a total that was reported stays reported and never falls.
pub reported_total_grows :
    (m : Metrics) (later : List Metrics)
    → is_history m later ≡ true
    → m.total_tokens.quality ≡ reported
    → ((latest m later).total_tokens.quality ≡ reported)
      × (amount m.total_tokens ≤ amount (latest m later).total_tokens)
unfolding validate_revision
reported_total_grows m later h e =
    is_revision_keeps m.total_tokens (latest m later).total_tokens
      (third _ _ _ _ (is_history-latest m later h)) e
  where
    third : (a b c d : Bool) → (a && (b && (c && d))) ≡ true → c ≡ true
    third a b c d p = ground arith
