-- ===== src/Retrieval/Service.antt =====
-- `search` of isekai_memory/retrieval/service.py: the request, its time budget and the budget of
-- characters. The normalization of the query and its words are inputs.
use isekai_memory.Base.{
  ℕ, zero, suc, ◌+◌, ◌-◌, ◌/◌, Bool, true, false, ◌||◌, not, Option, none, some, List, [], ◌∷◌,
  ◌++◌, ltb, leb, ◌==◌, if◌then◌else◌, any, length,
}
use isekai_memory.Base.Sorted.{limit_to}
use isekai_memory.Base.Outcome.{Result, ok, raise, experience, tool_error}
use isekai_memory.Base.Classified.{Classification, public, internal, confidential, restricted, rank}
use isekai_memory.Retrieval.Rows.{Request, Hit}
use isekai_memory.Retrieval.Citations.{Printer, Item, attach, size}

pub record Arguments : Type 0 where
  pub project_id : ℕ
  pub query_chars : ℕ
  pub words : List ℕ
  pub limit : Option ℕ
  pub max_chars : Option ℕ
  pub max_classification : Option Classification
  pub kind : Option ℕ
  pub source_lock_digest : Option ℕ
  pub compatibility_digest : Option ℕ

-- `dict.fromkeys(words)`
unfoldable pub distinct : List ℕ → List ℕ → List ℕ
distinct seen [] = seen
distinct seen (w ∷ ws) = distinct (if any (λ v. v == w) seen then seen else seen ++ (w ∷ [])) ws

abbrev pub get_or_default {ℓ} : {A : Type ℓ} → A → Option A → A
get_or_default d none = d
get_or_default d (some a) = a

-- `CLASSIFICATIONS[: CLASSIFICATIONS.index(maximum) + 1]`
unfoldable pub up_to : Classification → List Classification
up_to c = limit_to (rank c + 1) (public ∷ internal ∷ confidential ∷ restricted ∷ [])

unfoldable pub is_searchable : Arguments → Bool
is_searchable a =
    let terms = length (distinct [] a.words) in
    not (ltb 512 a.query_chars || terms == 0 || ltb 16 terms)

unfoldable pub request_of : Arguments → Request
request_of a = record {
  project_id = a.project_id;
  classifications = up_to (get_or_default internal a.max_classification);
  kind = a.kind;
  source_lock_digest = a.source_lock_digest;
  compatibility_digest = a.compatibility_digest;
  limit = get_or_default 10 a.limit + 1;
}

-- `while low <= high`, on fuel; `fits` says whether the item with this many characters fits.
unfoldable pub fit : ℕ → (ℕ → Bool) → ℕ → ℕ → Option ℕ → Option ℕ
fit zero fits low high fitted = fitted
fit (suc n) fits low high fitted =
    let middle = (low + high) / 2 in
    let longer = fit n fits (middle + 1) high (some middle) in
    let shorter = fit n fits low (middle - 1) fitted in
    if leb low high then (if fits middle then longer else shorter) else fitted

-- What the loop over the rows has collected.
pub record Packed : Type 0 where
  pub items : List Item
  pub used : ℕ
  pub clipped : Bool

-- `int(bool(items))`
abbrev pub comma : List Item → ℕ
comma [] = 0
comma (i ∷ t) = 1

-- `used + size <= budget` for the item with this many characters.
abbrev pub fits_with : Printer → ℕ → Packed → Hit → ℕ → Bool
fits_with p budget s h chars = leb (s.used + (size p (attach p chars h) + comma s.items)) budget

abbrev pub add_item : Printer → Packed → Hit → ℕ → Bool → Packed
add_item p s h chars cut = record {
  items = s.items ++ (attach p chars h ∷ []);
  used = s.used + (size p (attach p chars h) + comma s.items);
  clipped = s.clipped || cut;
}

-- The search for the longest excerpt that fits; its fuel is the length of the whole one, and one more.
abbrev pub fitted : Printer → ℕ → Packed → Hit → Option ℕ
fitted p budget s h =
    let high = length (limit_to 512 h.memory.content) in
    fit (suc high) (fits_with p budget s h) 1 high none

-- One round of the loop; `none` is its `break`.
unfoldable pub place : Printer → ℕ → Packed → Hit → Option Packed
place p budget s h =
    if fits_with p budget s h 512
    then some (add_item p s h 512 false)
    else elim (fitted p budget s h) [ none ↦ none | some chars ↦ some (add_item p s h chars true) ]

unfoldable pub pack : Printer → ℕ → List Hit → Packed → Packed
pack p budget [] s = s
pack p budget (h ∷ t) s = elim (place p budget s h) [ none ↦ s | some s' ↦ pack p budget t s' ]

pub record Found : Type 0 where
  pub items : List Item
  pub returned : ℕ
  pub truncated : Bool
  pub result_chars : ℕ
  pub max_chars : ℕ
  pub citation_schema_version : ℕ

-- What the wait for the rows comes to.
pub data Fetched : Type 0 where
  rows : List Hit → Fetched
  timed_out unreachable : Fetched

abbrev pub nothing_packed : Packed
nothing_packed = record { items = []; used = 2; clipped = false }

unfoldable pub report : Printer → ℕ → ℕ → Option ℕ → List Hit → Found
report p limit budget compatibility fetched =
    let s = pack p budget (limit_to limit fetched) nothing_packed in
    record {
      items = s.items;
      returned = length s.items;
      truncated = s.clipped || ltb (length s.items) (length fetched);
      result_chars = s.used;
      max_chars = budget;
      citation_schema_version = elim compatibility [ none ↦ 1 | some d ↦ 2 ];
    }

-- The time-out and the lost connection are errors of their own.
unfoldable pub answer : Printer → Arguments → Fetched → Result Found
answer p a timed_out = raise (record { series = experience; number = 6; http_status = 503 })
answer p a unreachable = raise (record { series = experience; number = 11; http_status = 503 })
answer p a (rows fetched) = ok (
    report p (get_or_default 10 a.limit) (get_or_default 8000 a.max_chars) a.compatibility_digest
      fetched)

unfoldable pub search : Printer → (Request → Fetched) → Arguments → Result Found
search p fetch_rows a =
    if is_searchable a
    then answer p a (fetch_rows (request_of a))
    else raise (tool_error experience 5)
