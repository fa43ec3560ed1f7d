-- ===== src/Retrieval/Budget.antt =====
-- The budget of characters of isekai_memory/retrieval/service.py, and what the answer leaves out.
use isekai_memory.Base.{
  ℕ, zero, suc, ◌≤◌, ◌≡◌, inl, inr, refl, ◌∙◌, sym, ap, false, ◌||◌, List, [], ◌∷◌, map, ltb, arith,
  All, length, Bool-cases,
}
use isekai_memory.Base.Sorted.{limit_to}
use isekai_memory.Base.Outcome.{Result, ok}
use isekai_memory.Retrieval.Rows.{Request, Hit}
use isekai_memory.Retrieval.Citations.{Printer, attach}
use isekai_memory.Retrieval.Service.{
  Arguments, get_or_default, request_of, pack, Found, Fetched, rows, timed_out, unreachable,
  nothing_packed, report, answer, search, is_searchable,
}
use isekai_memory.Retrieval.Packing.{
  separated, list_size, IsCited, IsPacked, Adds-IsPacked, pack_rule, pack-length, pack_whole,
}

answer-cases :
    (p : Printer) (a : Arguments) (o : Fetched) (f : Found)
    → answer p a o ≡ ok f
    → (t : List Hit) × (o ≡ rows t)
      × (f
          ≡ report p
              (get_or_default 10 a.limit)
              (get_or_default 8000 a.max_chars)
              a.compatibility_digest
              t)
unfolding answer
answer-cases p a timed_out f e = cc
answer-cases p a unreachable f e = cc
answer-cases p a (rows t) f e = (t, refl, same _ f e)
  where
    same : (x y : Found) → ◌≡◌ {A = Result Found} (ok x) (ok y) → y ≡ x
    same x y q = cc

-- A search that succeeds has fetched rows, and reports on them.
pub search-cases :
    (p : Printer) (fetch_rows : Request → Fetched) (a : Arguments) (f : Found)
    → search p fetch_rows a ≡ ok f
    → (t : List Hit) × (fetch_rows (request_of a) ≡ rows t)
      × (f
          ≡ report p
              (get_or_default 10 a.limit)
              (get_or_default 8000 a.max_chars)
              a.compatibility_digest
              t)
unfolding search
search-cases p fetch_rows a f e = elim (Bool-cases (is_searchable a)) [
  | inr n ↦ cc (rw n at e)
  | inl y ↦ answer-cases p a (fetch_rows (request_of a)) f (rw y at e)
]

-- The answer to a search keeps the budget: the characters that it states are those that the JSON array
-- of its items prints, at most `max_chars`, and each item is bound to its memory and excerpt by its
-- digests, also where the excerpt was shortened. The budget has room for the brackets.
pub search_within_budget :
    (p : Printer) (fetch_rows : Request → Fetched) (a : Arguments) (f : Found)
    → search p fetch_rows a ≡ ok f
    → 2 ≤ get_or_default 8000 a.max_chars
    → (f.result_chars ≤ f.max_chars)
      × (f.result_chars ≡ list_size p f.items)
      × All (IsCited p) f.items
unfolding report list_size separated
search_within_budget p fetch_rows a f e room =
    let budget = get_or_default 8000 a.max_chars in
    let (t, _, same) = search-cases p fetch_rows a f e in
    rw same (
      pack_rule p budget (IsPacked p budget) (Adds-IsPacked p budget)
        (limit_to (get_or_default 10 a.limit) t) nothing_packed (room, refl, tt))

limit_to_whole {ℓ} : {A : Type ℓ} (n : ℕ) (t : List A) → length t ≤ n → limit_to n t ≡ t
limit_to_whole zero [] h = refl
limit_to_whole zero (x ∷ t) h = absurd (omega arith)
limit_to_whole (suc n) [] h = refl
limit_to_whole (suc n) (x ∷ t) h = ap (λ u. x ∷ u) (limit_to_whole n t (omega arith))

limit_to-size {ℓ} :
    {A : Type ℓ} (n : ℕ) (t : List A)
    → (length (limit_to n t) ≤ n) × (length (limit_to n t) ≤ length t)
limit_to-size zero t = (omega arith, omega arith)
limit_to-size (suc n) [] = (omega arith, omega arith)
limit_to-size (suc n) (x ∷ t) = let (a, b) = limit_to-size n t in (omega arith, omega arith)

-- An answer that does not say it is truncated holds every row that was fetched, in its order and with
-- its whole excerpt of at most 512 characters.
pub search_untruncated :
    (p : Printer) (fetch_rows : Request → Fetched) (a : Arguments) (f : Found)
    → search p fetch_rows a ≡ ok f
    → f.truncated ≡ false
    → (t : List Hit) × (fetch_rows (request_of a) ≡ rows t) × (f.items ≡ map (attach p 512) t)
unfolding report
search_untruncated p fetch_rows a f e whole =
    let budget = get_or_default 8000 a.max_chars in
    let n = get_or_default 10 a.limit in
    let (t, fetched, same) = search-cases p fetch_rows a f e in
    let s = pack p budget (limit_to n t) nothing_packed in
    let flag : (s.clipped || ltb (length s.items) (length t)) ≡ false =
      sym (ap (λ (x : Found). x.truncated) same) ∙ whole in
    let clear : s.clipped ≡ false = ground arith in
    let all_ : length t ≤ length s.items = ground arith in
    let most = pack-length p budget (limit_to n t) nothing_packed in
    let (few, fewer) = limit_to-size n t in
    let short : length t ≤ n = omega arith in
    let items = pack_whole p budget (limit_to n t) nothing_packed clear (omega arith) in
    (
      t,
      fetched,
      ap (λ (x : Found). x.items) same ∙ items ∙ ap (map (attach p 512)) (limit_to_whole n t short),
    )
