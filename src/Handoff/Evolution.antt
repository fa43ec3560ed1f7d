-- ===== src/Handoff/Evolution.antt =====
-- How any operation may change the tables: rows advance, receipts stay.
use isekai_memory.Base.{
  ℕ, ◌≤◌, ◌≡◌, ◌≢◌, refl, sym, ◌∙◌, ap, Bool, true, ◌⊎◌, inl, inr, Option, none, some, List, arith,
  Bool-cases, ◌==◌, some_eq,
}
use isekai_memory.Base.Table.{fetch, update, fetch-holds, fetch-update_where}
use isekai_memory.Handoff.Rows.{
  Handoff, Receipt, Store, acknowledged, has_id, find_handoff, in_project,
}

-- A row keeps what was published, its claim generation never falls, and an acknowledged row never
-- changes again.
pub record Advances (h h' : Handoff) : Type 0 where
  pub same_id : h'.id ≡ h.id
  pub same_project : h'.project_id ≡ h.project_id
  pub same_payload : h'.payload_digest ≡ h.payload_digest
  pub same_document : h'.document ≡ h.document
  pub same_expiry : h'.expires_at ≡ h.expires_at
  pub generation : h.claim_generation ≤ h'.claim_generation
  pub terminal : (h.status ≢ acknowledged) ⊎ (h' ≡ h)

pub Advances-refl : (h : Handoff) → Advances h h
Advances-refl h = record {
  same_id = refl;
  same_project = refl;
  same_payload = refl;
  same_document = refl;
  same_expiry = refl;
  generation = omega arith;
  terminal = inr refl;
}

terminal_trans :
    (a b c : Handoff)
    → (a.status ≢ acknowledged) ⊎ (b ≡ a)
    → (b.status ≢ acknowledged) ⊎ (c ≡ b)
    → (a.status ≢ acknowledged) ⊎ (c ≡ a)
terminal_trans a b c (inl h) k = inl h
terminal_trans a b c (inr e) (inl k) = inl (λ q. k (ap (λ (h : Handoff). h.status) e ∙ q))
terminal_trans a b c (inr e) (inr k) = inr (k ∙ e)

pub Advances-trans : (a b c : Handoff) → Advances a b → Advances b c → Advances a c
Advances-trans a b c h k = record {
  same_id = k.same_id ∙ h.same_id;
  same_project = k.same_project ∙ h.same_project;
  same_payload = k.same_payload ∙ h.same_payload;
  same_document = k.same_document ∙ h.same_document;
  same_expiry = k.same_expiry ∙ h.same_expiry;
  generation = omega arith;
  terminal = terminal_trans a b c h.terminal k.terminal;
}

-- Every row is still there, advanced.
abbrev pub RowsAdvance : List Handoff → List Handoff → Type 0
RowsAdvance t u =
    (j : ℕ) (r : Handoff)
    → fetch (has_id j) t ≡ some r
    → (r' : Handoff) × (fetch (has_id j) u ≡ some r') × Advances r r'

-- A receipt that a clause finds is found for good.
abbrev pub ReceiptsStay : List Receipt → List Receipt → Type 0
ReceiptsStay t u = (q : Receipt → Bool) (r : Receipt) → fetch q t ≡ some r → fetch q u ≡ some r

abbrev pub Evolves : Store → Store → Type 0
Evolves s t = RowsAdvance s.handoffs t.handoffs × ReceiptsStay s.receipts t.receipts

pub Evolves-refl : (s : Store) → Evolves s s
Evolves-refl s = (λ j r e. (r, e, Advances-refl r), λ q r e. e)

pub Evolves-trans : (s t u : Store) → Evolves s t → Evolves t u → Evolves s u
Evolves-trans s t u (a, b) (c, d) = (
  λ j r e.
      let (r', e', h) = a j r e in
      let (r2, e2, k) = c j r' e' in (r2, e2, Advances-trans r r' r2 h k),
  λ q r e. d q r (b q r e),
)

pub update-RowsAdvance :
    (p : Handoff → Bool) (f : Handoff → Handoff) (t : List Handoff)
    → ((r : Handoff) → (f r).id ≡ r.id)
    → ((j : ℕ) (r : Handoff) → fetch (has_id j) t ≡ some r → p r ≡ true → Advances r (f r))
    → RowsAdvance t (update p f t)
update-RowsAdvance p f t keep adv j r e = elim (Bool-cases (p r)) [
  | inl h ↦ (
    f r,
    rw h at (fetch-update_where (has_id j) p f t (λ x. ap (λ (i : ℕ). i == j) (keep x)) r e),
    adv j r e h,
  )
  | inr h ↦ (
    r,
    rw h at (fetch-update_where (has_id j) p f t (λ x. ap (λ (i : ℕ). i == j) (keep x)) r e),
    Advances-refl r,
  )
]

-- The row that `WHERE id=$1` finds is the only one that is written.
pub same_row :
    (i j : ℕ) (t : List Handoff) (h r : Handoff)
    → fetch (has_id i) t ≡ some h
    → fetch (has_id j) t ≡ some r
    → has_id i r ≡ true
    → r ≡ h
same_row i j t h r e k m =
    let x = fetch-holds (has_id j) t r k in
    let i-j : j ≡ i = ground arith in
    some_eq r h (sym k ∙ (ap (λ (n : ℕ). fetch (has_id n) t) i-j ∙ e))

pub update_row-RowsAdvance :
    (i : ℕ) (f : Handoff → Handoff) (t : List Handoff) (h : Handoff)
    → ((r : Handoff) → (f r).id ≡ r.id)
    → fetch (has_id i) t ≡ some h
    → Advances h (f h)
    → RowsAdvance t (update (has_id i) f t)
update_row-RowsAdvance i f t h keep e adv =
    update-RowsAdvance (has_id i) f t keep (λ j r k m. rw (same_row i j t h r e k m) adv)

pub find_handoff-fetch :
    (i p : ℕ) (t : List Handoff) (h : Handoff)
    → find_handoff i p t ≡ some h
    → (fetch (has_id i) t ≡ some h) × (h.project_id ≡ p)
find_handoff-fetch i p t h e = inner (fetch (has_id i) t) e
  where
    inner : (o : Option Handoff) → in_project p o ≡ some h → (o ≡ some h) × (h.project_id ≡ p)
    inner none q = cc
    inner (some x) q = ground arith

-- The row that is found is found by its own identifier.
pub fetch-own_id :
    (i : ℕ) (t : List Handoff) (h : Handoff)
    → fetch (has_id i) t ≡ some h
    → fetch (has_id h.id) t ≡ some h
fetch-own_id i t h e =
    let x = fetch-holds (has_id i) t h e in
    let same : h.id ≡ i = ground arith in ap (λ (n : ℕ). fetch (has_id n) t) same ∙ e
