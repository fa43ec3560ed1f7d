-- ===== src/Retrieval/Shown.antt =====
-- Who may see what isekai_memory/retrieval/service.py answers.
use isekai_memory.Base.{◌≤◌, ◌≡◌, true, List, [], ◌∷◌, arith, All}
use isekai_memory.Base.Among.{Among}
use isekai_memory.Base.Sorted.{limit_to, All-limit_to}
use isekai_memory.Base.Outcome.{ok}
use isekai_memory.Base.Classified.{internal, rank}
use isekai_memory.Retrieval.Rows.{
  Memory, Snapshot, Request, has_begun, has_not_ended, admits, is_visible, Candidate, Hit,
  fetch_rows,
}
use isekai_memory.Retrieval.Citations.{Printer, Item}
use isekai_memory.Retrieval.Service.{
  Arguments, get_or_default, request_of, rows, nothing_packed, report, Found, search,
}
use isekai_memory.Retrieval.Visibility.{IsVisible, fetch_rows-IsVisible, up_to-rank}
use isekai_memory.Retrieval.Packing.{pack-All}
use isekai_memory.Retrieval.Budget.{search-cases}

-- A memory that the arguments of a search may show.
pub record IsShown (a : Arguments) (s : Snapshot) (m : Memory) : Type 0 where
  pub stored : Among m s.memories
  pub own_project : m.project_id ≡ a.project_id
  pub active : m.is_active ≡ true
  pub begun : has_begun m.valid_from s.now ≡ true
  pub unexpired : has_not_ended m.expires_at s.now ≡ true
  pub clearance : rank m.classification ≤ rank (get_or_default internal a.max_classification)
  pub of_kind : admits a.kind m.kind ≡ true

visible-IsShown :
    (a : Arguments) (s : Snapshot) (h : Hit) → IsVisible (request_of a) s h → IsShown a s h.memory
unfolding is_visible request_of
visible-IsShown a s h (m, v) = record {
  stored = m;
  own_project = ground arith;
  active = ground arith;
  begun = ground arith;
  unexpired = ground arith;
  clearance =
      up_to-rank h.memory.classification (get_or_default internal a.max_classification)
        (ground arith);
  of_kind = ground arith;
}

All-map {ℓ κ μ} :
    {A : Type ℓ} (P : A → Type κ) (Q : A → Type μ) (t : List A)
    → ((x : A) → P x → Q x)
    → All P t
    → All Q t
All-map P Q [] f a = tt
All-map P Q (x ∷ t) f a = (f x a.0, All-map P Q t f a.1)

-- Whatever a provider nominates, a search answers only with stored, active and currently valid memories
-- of the project that it names, of the kind that it asks for, and of a classification up to the maximum
-- that it names, which is `internal` by default.
pub search_shows :
    (p : Printer) (nominate : Request → List Candidate) (s : Snapshot) (a : Arguments) (f : Found)
    → search p (λ r. rows (fetch_rows (nominate r) r s)) a ≡ ok f
    → All (λ (i : Item). IsShown a s i.hit.memory) f.items
unfolding report
search_shows p nominate s a f e =
    let r = request_of a in
    let (t, fetched, same) = search-cases p (λ q. rows (fetch_rows (nominate q) q s)) a f e in
    let seen : All (IsVisible r s) t =
      rw (hits _ t fetched) at (fetch_rows-IsVisible (nominate r) r s) in
    let P = λ (h : Hit). IsShown a s h.memory in
    let shown = All-map (IsVisible r s) P t (visible-IsShown a s) seen in
    let n = get_or_default 10 a.limit in
    rw same (
      pack-All p (get_or_default 8000 a.max_chars) P (limit_to n t) nothing_packed
        (All-limit_to P n t shown) tt)
  where
    hits : (x y : List Hit) → rows x ≡ rows y → x ≡ y
    hits x y q = cc
