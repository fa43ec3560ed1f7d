-- ===== src/Retrieval/Visibility.antt =====
-- Whatever a provider nominates, isekai_memory/retrieval/postgres.py returns visible rows only.
use isekai_memory.Base.{
  ℕ, zero, suc, ◌+◌, ◌≤◌, ◌≡◌, refl, true, ◌&&◌, Option, none, some, List, [], ◌∷◌, ◌==◌, arith,
  All, length,
}
use isekai_memory.Base.Table.{fetch, fetch-holds}
use isekai_memory.Base.Among.{Among, fetch-Among}
use isekai_memory.Base.Sorted.{limit_to}
use isekai_memory.Base.Classified.{Classification, public, internal, confidential, restricted, rank}
use isekai_memory.Retrieval.Rows.{
  Memory, Snapshot, Request, is_visible, is_in, Candidate, Hit, Score, finite, not_finite,
  set_default, score_one, scores_from, add_hit, hydrate, fetch_rows,
}
use isekai_memory.Retrieval.Service.{up_to}

-- A hit is a visible row of the snapshot.
abbrev pub IsVisible : Request → Snapshot → Hit → Type 0
IsVisible r s h = Among h.memory s.memories × (is_visible r s h.memory ≡ true)

add_hit-IsVisible :
    (r : Request) (s : Snapshot) (o : Option Memory) (v : ℕ) (t : List Hit)
    → ((m : Memory) → o ≡ some m → Among m s.memories × (is_visible r s m ≡ true))
    → All (IsVisible r s) t
    → All (IsVisible r s) (add_hit o v t)
add_hit-IsVisible r s none v t h rest = rest
add_hit-IsVisible r s (some m) v t h rest = (h m refl, rest)

hydrate-IsVisible :
    (r : Request) (s : Snapshot) (t : List (ℕ × ℕ)) → All (IsVisible r s) (hydrate r s t)
unfolding hydrate
hydrate-IsVisible r s [] = tt
hydrate-IsVisible r s ((id, v) ∷ t) =
    let clause = λ (m : Memory). is_visible r s m && m.id == id in
    add_hit-IsVisible r s (fetch clause s.memories) v (hydrate r s t)
      (λ m f.
        let both = fetch-holds clause s.memories m f in
        (fetch-Among clause s.memories m f, ground arith))
      (hydrate-IsVisible r s t)

-- Whatever a provider nominates, each hit is a row of the snapshot that is visible to the request.
pub fetch_rows-IsVisible :
    (nominated : List Candidate) (r : Request) (s : Snapshot)
    → All (IsVisible r s) (fetch_rows nominated r s)
unfolding fetch_rows
fetch_rows-IsVisible nominated r s =
    hydrate-IsVisible r s (scores_from [] (limit_to r.limit nominated))

set_default-length : (id v : ℕ) (t : List (ℕ × ℕ)) → length (set_default id v t) ≤ suc (length t)
set_default-length id v [] = omega arith
set_default-length id v ((i, w) ∷ t) = ground (arith, set_default-length id v t)

score_one-length :
    (id : ℕ) (o : Score) (t : List (ℕ × ℕ)) → length (score_one id o t) ≤ suc (length t)
score_one-length id (finite v) t = set_default-length id v t
score_one-length id not_finite t = omega arith

scores-length :
    (t : List (ℕ × ℕ)) (cs : List Candidate) → length (scores_from t cs) ≤ length t + length cs
unfolding scores_from
scores-length t [] = omega arith
scores-length t (c ∷ cs) =
    let one = score_one-length c.memory_id c.score t in
    let rest = scores-length (score_one c.memory_id c.score t) cs in omega arith

add_hit-length :
    (o : Option Memory) (v : ℕ) (t : List Hit) → length (add_hit o v t) ≤ suc (length t)
add_hit-length none v t = omega arith
add_hit-length (some m) v t = omega arith

hydrate-length : (r : Request) (s : Snapshot) (t : List (ℕ × ℕ)) → length (hydrate r s t) ≤ length t
unfolding hydrate
hydrate-length r s [] = omega arith
hydrate-length r s ((id, v) ∷ t) =
    let more =
      add_hit-length (fetch (λ (m : Memory). is_visible r s m && m.id == id) s.memories) v
        (hydrate r s t) in
    let rest = hydrate-length r s t in omega arith

limit_to-length {ℓ} : {A : Type ℓ} (n : ℕ) (t : List A) → length (limit_to n t) ≤ n
limit_to-length zero t = omega arith
limit_to-length (suc n) [] = omega arith
limit_to-length (suc n) (x ∷ t) = omega (arith, limit_to-length n t)

-- However many memories a provider nominates, no more than the limit of the request are returned.
pub fetch_rows-length :
    (nominated : List Candidate) (r : Request) (s : Snapshot)
    → length (fetch_rows nominated r s) ≤ r.limit
unfolding fetch_rows
fetch_rows-length nominated r s =
    let cs = limit_to r.limit nominated in
    let a = limit_to-length r.limit nominated in
    let b = scores-length [] cs in let c = hydrate-length r s (scores_from [] cs) in omega arith

-- The classifications up to a maximum are those of its rank or a lower one.
pub up_to-rank : (c m : Classification) → is_in c (up_to m) ≡ true → rank c ≤ rank m
unfolding up_to
up_to-rank public m e = omega arith
up_to-rank internal public e = cc
up_to-rank internal internal e = omega arith
up_to-rank internal confidential e = omega arith
up_to-rank internal restricted e = omega arith
up_to-rank confidential public e = cc
up_to-rank confidential internal e = cc
up_to-rank confidential confidential e = omega arith
up_to-rank confidential restricted e = omega arith
up_to-rank restricted public e = cc
up_to-rank restricted internal e = cc
up_to-rank restricted confidential e = cc
up_to-rank restricted restricted e = omega arith
