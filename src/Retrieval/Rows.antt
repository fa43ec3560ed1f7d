-- ===== src/Retrieval/Rows.antt =====
-- isekai_memory/retrieval/postgres.py: a provider nominates memories, and the rows are fetched under the
-- visibility of the request. How the database matches and ranks text is a parameter; identifiers, kinds
-- and digests are only compared, so they are numbers; times are microseconds.
use isekai_memory.Base.{
  ℕ, Bool, true, false, ◌&&◌, ◌||◌, Option, none, some, List, [], ◌∷◌, map, ltb, leb, ◌==◌,
  if◌then◌else◌, any, select,
}
use isekai_memory.Base.Table.{fetch}
use isekai_memory.Base.Sorted.{order_by, limit_to}
use isekai_memory.Base.Classified.{Classification, rank}

-- The columns of `memory_experiences` that retrieval reads; `content` is a text as its code points.
pub record Memory : Type 0 where
  pub id : ℕ
  pub project_id : ℕ
  pub is_active : Bool
  pub valid_from : Option ℕ
  pub expires_at : Option ℕ
  pub classification : Classification
  pub kind : ℕ
  pub source_handoff_id : ℕ
  pub source_lock_digest : ℕ
  pub source_payload_digest : ℕ
  pub content : List ℕ
  pub updated_at : ℕ

-- The columns of `handoffs` that the compatibility digest is read from.
pub record Source : Type 0 where
  pub id : ℕ
  pub project_id : ℕ
  pub payload_digest : ℕ
  pub compatibility_digest : Option ℕ

-- One snapshot of the tables.
pub record Snapshot : Type 0 where
  pub memories : List Memory
  pub handoffs : List Source
  pub now : ℕ

pub record Request : Type 0 where
  pub project_id : ℕ
  pub classifications : List Classification
  pub kind : Option ℕ
  pub source_lock_digest : Option ℕ
  pub compatibility_digest : Option ℕ
  pub limit : ℕ

-- `$n IS NULL OR column = $n`
abbrev pub admits : Option ℕ → ℕ → Bool
admits none v = true
admits (some w) v = w == v

-- `column = value`; a NULL is not.
abbrev pub holds : Option ℕ → ℕ → Bool
holds none v = false
holds (some w) v = w == v

abbrev pub has_begun : Option ℕ → ℕ → Bool
has_begun none now = true
has_begun (some t) now = leb t now

abbrev pub has_not_ended : Option ℕ → ℕ → Bool
has_not_ended none now = true
has_not_ended (some t) now = ltb now t

abbrev pub is_in : Classification → List Classification → Bool
is_in c t = any (λ d. rank d == rank c) t

-- The source of a memory, of the compatibility that is asked for.
abbrev is_compatible_source : ℕ → Memory → Source → Bool
is_compatible_source digest m h =
    h.id == m.source_handoff_id
    && h.project_id == m.project_id
    && h.payload_digest == m.source_payload_digest
    && holds h.compatibility_digest digest

-- The last condition of `_VISIBLE`, on the lock or the compatibility digest.
unfoldable pub has_source : Option ℕ → Option ℕ → Snapshot → Memory → Bool
has_source none none s m = true
has_source (some lock) none s m = m.source_lock_digest == lock
has_source none (some digest) s m = any (is_compatible_source digest m) s.handoffs
has_source (some lock) (some digest) s m =
    m.source_lock_digest == lock || any (is_compatible_source digest m) s.handoffs

-- `_VISIBLE`
unfoldable pub is_visible : Request → Snapshot → Memory → Bool
is_visible r s m =
    m.project_id == r.project_id
    && m.is_active
    && has_begun m.valid_from s.now
    && has_not_ended m.expires_at s.now
    && is_in m.classification r.classifications
    && admits r.kind m.kind
    && has_source r.source_lock_digest r.compatibility_digest s m

-- A score is a float, of which the code asks whether it is finite.
pub data Score : Type 0 where
  finite : ℕ → Score
  not_finite : Score

pub record Candidate : Type 0 where
  pub memory_id : ℕ
  pub score : Score

-- `candidates` of a provider, over the matching and ranking of the database.
abbrev ranked_before : (Memory → ℕ) → Memory → Memory → Bool
ranked_before score a b =
    ltb (score b) (score a)
    || score a == score b
      && (ltb b.updated_at a.updated_at || a.updated_at == b.updated_at && ltb b.id a.id)

unfoldable pub lexical_candidates :
    (Memory → Bool) → (Memory → ℕ) → Request → Snapshot → List Candidate
lexical_candidates matches score r s =
    map (λ (m : Memory). record { memory_id = m.id; score = finite (score m) })
      (limit_to r.limit
        (order_by (ranked_before score) (select (λ m. is_visible r s m && matches m) s.memories)))

-- `scores.setdefault(candidate.memory_id, candidate.score)` over the finite ones, in their order.
abbrev pub set_default : ℕ → ℕ → List (ℕ × ℕ) → List (ℕ × ℕ)
set_default id v [] = (id, v) ∷ []
set_default id v ((i, w) ∷ t) = if i == id then (i, w) ∷ t else (i, w) ∷ set_default id v t

abbrev pub score_one : ℕ → Score → List (ℕ × ℕ) → List (ℕ × ℕ)
score_one id (finite v) t = set_default id v t
score_one id not_finite t = t

unfoldable pub scores_from : List (ℕ × ℕ) → List Candidate → List (ℕ × ℕ)
scores_from t [] = t
scores_from t (c ∷ cs) = scores_from (score_one c.memory_id c.score t) cs

-- A row and its score.
pub record Hit : Type 0 where
  pub memory : Memory
  pub score : ℕ

-- The row with its score, where `by_id` has it.
abbrev pub add_hit : Option Memory → ℕ → List Hit → List Hit
add_hit none v t = t
add_hit (some m) v t = record { memory = m; score = v } ∷ t

-- The rows of `by_id` in the order of the scores.
unfoldable pub hydrate : Request → Snapshot → List (ℕ × ℕ) → List Hit
hydrate r s [] = []
hydrate r s ((id, v) ∷ t) =
    add_hit (fetch (λ (m : Memory). is_visible r s m && m.id == id) s.memories) v (hydrate r s t)

-- `fetch_rows`, over the nominations of any provider.
unfoldable pub fetch_rows : List Candidate → Request → Snapshot → List Hit
fetch_rows nominated r s = hydrate r s (scores_from [] (limit_to r.limit nominated))
