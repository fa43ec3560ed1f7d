-- ===== src/Retrieval/Tests.antt =====
-- A search over a small table.
use isekai_memory.Base.{
  ℕ, ◌+◌, ◌≤◌, ◌≡◌, refl, true, false, none, some, List, [], ◌∷◌, map, arith, All, length,
}
use isekai_memory.Base.Classified.{Classification, public, internal, confidential}
use isekai_memory.Base.Outcome.{ok, raise, tool_error, experience}
use isekai_memory.Retrieval.Rows.{
  Memory, Snapshot, has_source, is_visible, Candidate, finite, not_finite, scores_from, Hit,
  hydrate, fetch_rows, lexical_candidates,
}
use isekai_memory.Retrieval.Citations.{Printer, Item, attach, size, printed, width}
use isekai_memory.Retrieval.Service.{
  Arguments, distinct, up_to, is_searchable, request_of, fit, fits_with, fitted, place, pack, Found,
  rows, nothing_packed, report, answer, search,
}
use isekai_memory.Retrieval.Fit.{longest, fitted-longest}
use isekai_memory.Retrieval.Packing.{list_size, IsCited}
use isekai_memory.Retrieval.Budget.{search_within_budget, search_untruncated}
use isekai_memory.Retrieval.Shown.{IsShown, search_shows}

operations : Unit {0}
unfolding has_source is_visible scores_from hydrate fetch_rows lexical_candidates attach printed
    width size distinct up_to is_searchable request_of fit place pack report answer search longest
operations = tt

abbrev memory : ℕ → Classification → List ℕ → Memory
memory id class text = record {
  id = id;
  project_id = 7;
  is_active = true;
  valid_from = none;
  expires_at = some 900;
  classification = class;
  kind = 1;
  source_handoff_id = 3;
  source_lock_digest = 4;
  source_payload_digest = 5;
  content = text;
  updated_at = id;
}

abbrev short_text : List ℕ
short_text = 97 ∷ 34 ∷ 98 ∷ []

abbrev long_text : List ℕ
long_text = 97 ∷ 97 ∷ 97 ∷ 97 ∷ 97 ∷ 97 ∷ []

abbrev snapshot : Snapshot
snapshot = record {
  memories =
      memory 1 internal short_text
      ∷ memory 2 confidential short_text
      ∷ memory 3 public long_text
      ∷ [];
  handoffs = [];
  now = 100;
}

abbrev printer : Printer
printer = record {
  content_digest = λ m. m.id;
  text_digest = λ t. length t;
  binding_digest = λ m c e. m.id + c + e;
  overhead = λ h. 20;
}

-- All three memories, one twice, and one with no score.
abbrev nominated : List Candidate
nominated =
    record { memory_id = 1; score = finite 9 }
    ∷ record { memory_id = 2; score = finite 8 }
    ∷ record { memory_id = 1; score = finite 7 }
    ∷ record { memory_id = 3; score = finite 6 }
    ∷ record { memory_id = 4; score = not_finite }
    ∷ []

abbrev asked : ℕ → Arguments
asked budget = record {
  project_id = 7;
  query_chars = 5;
  words = 1 ∷ 2 ∷ 1 ∷ [];
  limit = some 4;
  max_chars = some budget;
  max_classification = none;
  kind = none;
  source_lock_digest = none;
  compatibility_digest = none;
}

abbrev hits : List Hit
hits =
    record { memory = memory 1 internal short_text; score = 9 }
    ∷ record { memory = memory 3 public long_text; score = 6 }
    ∷ []

hits_found : fetch_rows nominated (request_of (asked 100)) snapshot ≡ hits
unfolding operations
hits_found = refl

abbrev clipped : Found
clipped = record {
  items =
      attach printer 512 (record { memory = memory 1 internal short_text; score = 9 })
      ∷ attach printer 3 (record { memory = memory 3 public long_text; score = 6 })
      ∷ [];
  returned = 2;
  truncated = true;
  result_chars = 50;
  max_chars = 50;
  citation_schema_version = 1;
}

-- The quotation mark prints as two characters, and three of the six letters fit.
last_cut : search printer (λ r. rows (fetch_rows nominated r snapshot)) (asked 50) ≡ ok clipped
unfolding operations
last_cut = refl

abbrev whole : Found
whole = record {
  items = map (attach printer 512) hits;
  returned = 2;
  truncated = false;
  result_chars = 53;
  max_chars = 100;
  citation_schema_version = 1;
}

nothing_cut : search printer (λ r. rows (fetch_rows nominated r snapshot)) (asked 100) ≡ ok whole
unfolding operations
nothing_cut = refl

no_words :
    search printer (λ r. rows []) (record (asked 100) { words = [] })
    ≡ raise (tool_error experience 5)
unfolding operations
no_words = refl

fitted-longest_example :
    fitted printer 30 nothing_packed (record { memory = memory 3 public long_text; score = 6 })
    ≡ longest
        (fits_with printer 30 nothing_packed
          (record { memory = memory 3 public long_text; score = 6 }))
        6
fitted-longest_example =
    fitted-longest printer 30 nothing_packed
      (record { memory = memory 3 public long_text; score = 6 })

search_within_budget_example :
    (50 ≤ clipped.max_chars)
    × (50 ≡ list_size printer clipped.items)
    × All (IsCited printer) clipped.items
search_within_budget_example =
    search_within_budget printer (λ r. rows (fetch_rows nominated r snapshot)) (asked 50) clipped
      last_cut (omega arith)

search_untruncated_example :
    (t : List Hit) × (rows (fetch_rows nominated (request_of (asked 100)) snapshot) ≡ rows t)
    × (whole.items ≡ map (attach printer 512) t)
search_untruncated_example =
    search_untruncated printer (λ r. rows (fetch_rows nominated r snapshot)) (asked 100) whole
      nothing_cut refl

search_shows_example : All (λ (i : Item). IsShown (asked 50) snapshot i.hit.memory) clipped.items
search_shows_example = search_shows printer (λ r. nominated) snapshot (asked 50) clipped last_cut
