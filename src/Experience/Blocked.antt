-- ===== src/Experience/Blocked.antt =====
-- A claim that was rejected or forgotten stays suppressed, and cannot be approved.
use isekai_memory.Base.{
  ℕ, ◌≡◌, ◌≢◌, some_eq, inl, inr, sym, ◌∙◌, ap, Bool, true, false, Option, none, some, arith,
}
use isekai_memory.Base.Outcome.{Result, ok}
use isekai_memory.Experience.Rows.{
  rejected, forgotten, Action, approve, reject, archive, forget, Experience, Store, is_suppressed,
}
use isekai_memory.Experience.Lifecycle.{Review, Receipt, refusal, carry_out, review, log}
use isekai_memory.Experience.Outcomes.{
  suppress-suppresses, carry_out-keeps, is_made, find_row, review-cases,
}

-- A review keeps every suppression.
review-keeps :
    (p d f : ℕ) (a : Review) (now : ℕ) (s : Store)
    → is_suppressed p d f s ≡ true
    → is_suppressed p d f (review a now s).0 ≡ true
unfolding log
review-keeps p d f a now s h = elim (review-cases a now s) [
  | inl (q, _) ↦ rw q h
  | inr (row, _, (parent, _, _, q)) ↦
      rw q (carry_out-keeps p d f a.action row a.actor_id parent s h)
]

-- Reviews, one after the other.
pub data Reviews (s : Store) : Store → Type 0 where
  none_yet : Reviews s s
  and_then :
      {t u : Store} → Reviews s t → (a : Review) (now : ℕ) → u ≡ (review a now t).0 → Reviews s u

still_suppressed :
    (p d f : ℕ) (s t : Store)
    → Reviews s t
    → is_suppressed p d f s ≡ true
    → is_suppressed p d f t ≡ true
still_suppressed p d f s _ none_yet h = h
still_suppressed p d f s _ (and_then {t = t} r a now e) h =
    rw e (review-keeps p d f a now t (still_suppressed p d f s t r h))

-- The actions that suppress the claim.
abbrev pub is_final : Action → Bool
is_final approve = false
is_final reject = true
is_final archive = false
is_final forget = true

final-suppresses :
    (a : Action) (row : Experience) (actor : ℕ) (parent : Option Experience) (s : Store)
    → is_final a ≡ true
    → is_suppressed row.project_id row.source_payload_digest row.content_fingerprint
        (carry_out a row actor parent s)
      ≡ true
unfolding carry_out
final-suppresses approve row actor parent s h = cc
final-suppresses reject row actor parent s h = suppress-suppresses row actor rejected s
final-suppresses archive row actor parent s h = cc
final-suppresses forget row actor parent s h = suppress-suppresses row actor forgotten s

suppressed_refusal :
    (row : Experience) (now : ℕ) (s : Store)
    → is_suppressed row.project_id row.source_payload_digest row.content_fingerprint s ≡ true
    → refusal row now s ≢ none
unfolding refusal
suppressed_refusal row now s h e = ground arith

-- Once a source-backed claim has been rejected or forgotten, no sequence of reviews lets it back in:
-- an approval of any row with the same project, source and fingerprint makes nothing and changes
-- nothing.
pub rejected_claim_blocked :
    (a b : Review) (now now' : ℕ) (s t u : Store) (r : Receipt) (x y : Experience)
    → review a now s ≡ (t, ok (r, false))
    → find_row a s ≡ some x
    → is_final a.action ≡ true
    → Reviews t u
    → b.action ≡ approve
    → find_row b u ≡ some y
    → y.project_id ≡ x.project_id
    → y.source_payload_digest ≡ x.source_payload_digest
    → y.content_fingerprint ≡ x.content_fingerprint
    → ((review b now' u).0 ≡ u) × (is_made (review b now' u).1 ≡ false)
unfolding log
rejected_claim_blocked a b now now' s t u r x y e found final later approves there i j k =
    elim (review-cases a now s) [
      | inl (_, old) ↦ cc (ap (λ (z : Store × Result (Receipt × Bool)). is_made z.1) e, old)
      | inr (row, f, (parent, _, _, q)) ↦ elim (review-cases b now' u) [
        | inl z ↦ z
        | inr (row', g, (_, _, refused, _)) ↦
            let same : row ≡ x = some_eq row x (sym f ∙ found) in
            let same' : row' ≡ y = some_eq row' y (sym g ∙ there) in
            let made = final-suppresses a.action row a.actor_id parent s final in
            let left : t.suppressions ≡ (carry_out a.action row a.actor_id parent s).suppressions =
              ap (λ (z : Store × Result (Receipt × Bool)). z.0.suppressions) (sym e ∙ q) in
            let on : is_suppressed x.project_id x.source_payload_digest x.content_fingerprint t
                ≡ true =
              rw (left, ← same) made in
            let still = still_suppressed _ _ _ t u later on in
            absurd (suppressed_refusal row' now' u (rw (same', i, j, k) still) (refused approves))
      ]
    ]
