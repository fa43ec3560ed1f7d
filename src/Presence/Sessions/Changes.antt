-- ===== src/Presence/Sessions/Changes.antt =====
-- How an operation can change the sessions of isekai_memory/continuity/presence.py.
use isekai_memory.Base.{
  ℕ, ◌≤◌, ◌<◌, ◌≡◌, ◌⊎◌, inl, inr, refl, Bool, true, false, Option, none, some, List, [], ◌∷◌, ◌++◌,
  arith, any, is_some, Option-cases,
}
use isekai_memory.Base.Table.{fetch, update, fetch-holds}
use isekai_memory.Base.Among.{Among, fetch-Among}
use isekai_memory.Base.Keyed
use isekai_memory.Base.Outcome.{Result, ok, raise, ◌>>=◌}
use isekai_memory.Presence.Heartbeat.{IsTimed}
use isekai_memory.Presence.Sessions.Rows.{
  Classification, rank, highest_of, Session, Store, has_id, previous_of,
}
use isekai_memory.Presence.Sessions.Reports.{
  Speaker, Report, is_owned, check_owned, owned, admit, classify, maximum, unit_class,
  checkpoint_class,
}
use isekai_memory.Presence.Sessions.Operations.{
  Plan, rewrite_session, perform, Register, initial_class, new_session, is_limited,
}

-- How a session may change: its identity stays, its sequence and its classification never fall, its
-- end stays, and once retired it does not change.
pub record Continues (x y : Session) : Type 0 where
  pub id : y.id ≡ x.id
  pub project_id : y.project_id ≡ x.project_id
  pub actor_id : y.actor_id ≡ x.actor_id
  pub client_instance_id : y.client_instance_id ≡ x.client_instance_id
  pub token : y.session_token_digest ≡ x.session_token_digest
  pub registration : y.register_digest ≡ x.register_digest
  pub parent : y.parent_session_id ≡ x.parent_session_id
  pub sequence : x.sequence ≤ y.sequence
  pub classification : rank x.classification ≤ rank y.classification
  pub ended : (x.ended_at ≡ none) ⊎ (y.ended_at ≡ x.ended_at)
  pub retired : (x.retired_at ≡ none) ⊎ (y ≡ x)

-- With its times kept in order.
pub record Allowed (x y : Session) : Type 0 where
  pub continues : Continues x y
  pub timed : IsTimed (previous_of x) → IsTimed (previous_of y)
  pub still_live : is_some x.retired_at ≡ true → is_some y.retired_at ≡ true
  pub still_ended : is_some x.ended_at ≡ true → is_some y.ended_at ≡ true

-- Identifiers are a key.
abbrev pub IsKeyed : List Session → Type 0
IsKeyed = Keyed.IsKeyed (λ (x : Session). x.id)

pub data Effect (s t : Store) : Type 0 where
  keeps : t.sessions ≡ s.sessions → Effect s t
  inserts :
      (a : Register) (actor id now : ℕ) (c : Classification)
      → t.sessions ≡ s.sessions ++ (new_session a actor id now c ∷ [])
      → any (has_id id) s.sessions ≡ false
      → is_limited a.project_id actor now s.sessions ≡ false
      → initial_class a actor s ≡ ok c
      → Effect s t
  rewrites :
      (p : Session → Bool) (f : Session → Session)
      → t.sessions ≡ update p f s.sessions
      → ((x : Session) → Among x s.sessions → p x ≡ true → Allowed x (f x))
      → Effect s t

highest_of-le : (c : Classification) (t : List Classification) → rank c ≤ rank (highest_of c t)
highest_of-le c [] = omega arith
highest_of-le c (d ∷ t) = ground (arith, highest_of-le c t, highest_of-le d t)

maximum-le :
    (c d : Classification) (t : List Classification) (parent : Option ℕ) (s : Store)
    → maximum c t parent s ≡ some d
    → rank c ≤ rank d
unfolding maximum
maximum-le c d t none s e = let h : highest_of c t ≡ d = cc in rw (← h) (highest_of-le c t)
maximum-le c d t (some parent) s e = elim (Option-cases (fetch (has_id parent) s.sessions)) [
  | inl n ↦ cc (rw n at e)
  | inr (r, f) ↦
      let top : highest_of (highest_of c t) (r.classification ∷ []) ≡ d = ofsome _ _ (rw f at e) in
      let low = highest_of-le c t in
      let high = highest_of-le (highest_of c t) (r.classification ∷ []) in
      rw (← top) (omega (arith, low, high))
]
  where
    ofsome : (x y : Classification) → some x ≡ some y → x ≡ y
    ofsome x y q = cc

classified :
    (base d : Classification) (parent : Option ℕ) (s : Store) (u c : Result (List Classification))
    → (u >>= λ x. c >>= λ y. ok (maximum base (x ++ y) parent s)) ≡ ok (some d)
    → rank base ≤ rank d
classified base d parent s (raise e) c h = cc
classified base d parent s (ok x) (raise e) h = cc
classified base d parent s (ok x) (ok y) h = maximum-le base d (x ++ y) parent s (cc)

-- A report never lowers the classification of its session.
pub classify-le :
    (a : Report) (actor now : ℕ) (s : Store) (r : Session) (d : Classification)
    → classify a actor now s r ≡ ok (some d)
    → rank r.classification ≤ rank d
unfolding classify
classify-le a actor now s r d e =
    let base = highest_of r.classification (a.classification ∷ []) in
    let low = highest_of-le r.classification (a.classification ∷ []) in
    let high =
      classified base d r.parent_session_id s
        (unit_class a.speaker.project_id a.work_unit_id actor now s)
        (checkpoint_class a.speaker.project_id a.checkpoint_id actor now s) e in
    omega (arith, low, high)

checked_row :
    (a : Speaker) (o : Option Session) (r : Session)
    → check_owned a o ≡ ok r
    → (o ≡ some r) × (r.retired_at ≡ none) × (r.session_token_digest ≡ a.token)
checked_row a none r e = cc
checked_row a (some x) r e = ground arith

-- The session that an operation works on is in the table, the speaker's, and not retired.
pub owned_row :
    (a : Speaker) (actor : ℕ) (s : Store) (r : Session)
    → owned a actor s ≡ ok r
    → Among r s.sessions
      × (r.retired_at ≡ none)
      × (r.session_token_digest ≡ a.token)
      × (is_owned a actor r ≡ true)
unfolding owned
owned_row a actor s r e =
    let (found, live, token) = checked_row a (fetch (is_owned a actor) s.sessions) r e in
    (
      fetch-Among (is_owned a actor) s.sessions r found,
      live,
      token,
      fetch-holds (is_owned a actor) s.sessions r found,
    )

-- A report that is neither refused nor a replay is of an open session, and later.
pub admit_new :
    (a : Report) (enabled : Bool) (r : Session)
    → admit a enabled r ≡ ok false
    → (r.ended_at ≡ none) × (r.sequence < a.speaker.sequence)
unfolding admit
admit_new a enabled r e = ground arith

pub bind-Effect :
    {A : Type 0} (s : Store) (m : Result A) (k : A → Result Plan)
    → ((x : A) → m ≡ ok x → Effect s (perform (k x) s).0)
    → Effect s (perform (m >>= k) s).0
unfolding perform
bind-Effect s (ok x) k h = h x refl
bind-Effect s (raise e) k h = keeps refl

-- A rewrite of the row with the key of `r` is a change of `r` alone.
pub rewrite-Effect :
    (s : Store) (f : Session → Session) (r : Session) (v : ℕ) (es : List _)
    → IsKeyed s.sessions
    → Among r s.sessions
    → Allowed r (f r)
    → Effect s (perform (ok (rewrite_session f r v es)) s).0
unfolding perform
rewrite-Effect s f r v es keyed m h =
    rewrites (has_id r.id) f refl
      λ x n same. let e : x.id ≡ r.id = ground arith in rw (keyed x r n m e) h
