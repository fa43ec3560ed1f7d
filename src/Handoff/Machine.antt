-- ===== src/Handoff/Machine.antt =====
-- What a client of handoffs may rely on: an abstract machine for one handoff, with neither tables
-- nor receipts, and the part of a row of isekai_memory/store/queries.py that it shows. The moves are those of queries.py, of
-- isekai_memory/handoff/collaboration_store.py and of isekai_memory/continuity/delivery.py.
use isekai_memory.Base.{ℕ, ◌≤◌, ◌<◌, ◌+◌, Bool, true, false, Option, none, some}
use isekai_memory.Handoff.Rows.{
  Handoff, Store, Status, pending, claimed, acknowledged, expired, has_id,
}
use isekai_memory.Base.Table.{fetch}

-- A handoff is held by a user, with the token and the end of a lease if it is a lease.
pub data Phase : Type 0 where
  unpublished offered settled gone : Phase
  held : Option ℕ → Option ℕ → Option ℕ → Phase

-- The generation counts the holds and the promotion; `managed` says that the handoff was promoted to a
-- continuity bundle.
pub record Lot : Type 0 where
  pub phase : Phase
  pub generation : ℕ
  pub managed : Bool

abbrev pub lot_at : Phase → ℕ → Bool → Lot
lot_at p g m = record { phase = p; generation = g; managed = m }

-- One move, at the time `now`. Only the running lease of a user's token is renewed, settled or given
-- back, and a renewal makes it longer; only a lease that has ended is taken from its holder; what was
-- promoted is not held, renewed or promoted again.
pub data Moves : Lot → Lot → Type 0 where
  publish : Moves (lot_at unpublished 0 false) (lot_at offered 0 false)
  hold :
      {g : ℕ} (user : ℕ) (token until : Option ℕ)
      → Moves (lot_at offered g false) (lot_at (held (some user) token until) (g + 1) false)
  recover :
      {g until : ℕ} {old old_token : Option ℕ} (user token next now : ℕ)
      → until ≤ now
      → Moves
          (lot_at (held old old_token (some until)) g false)
          (lot_at (held (some user) (some token) (some next)) (g + 1) false)
  renew :
      {g user token until : ℕ} (next now : ℕ)
      → now < until
      → until < next
      → Moves
          (lot_at (held (some user) (some token) (some until)) g false)
          (lot_at (held (some user) (some token) (some next)) g false)
  settle :
      {g user token until : ℕ} {m : Bool} (now : ℕ)
      → now < until
      → Moves (lot_at (held (some user) (some token) (some until)) g m) (lot_at settled g m)
  give_back :
      {g user token until : ℕ} {m : Bool} (now : ℕ)
      → now < until
      → Moves (lot_at (held (some user) (some token) (some until)) g m) (lot_at offered g m)
  lapse : {g : ℕ} → Moves (lot_at offered g false) (lot_at gone g false)
  promote : {g : ℕ} → Moves (lot_at offered g false) (lot_at offered (g + 1) true)
  promote_ended :
      {g until : ℕ} {old old_token : Option ℕ} (now : ℕ)
      → until ≤ now
      → Moves (lot_at (held old old_token (some until)) g false) (lot_at offered (g + 1) true)

-- Any number of moves.
pub data Reaches (a : Lot) : Lot → Type 0 where
  stays : Reaches a a
  then_moves : {b c : Lot} → Reaches a b → Moves b c → Reaches a c

abbrev pub phase_of : Status → Option ℕ → Option ℕ → Option ℕ → Phase
phase_of pending user token until = offered
phase_of claimed user token until = held user token until
phase_of acknowledged user token until = settled
phase_of expired user token until = gone

abbrev pub lot_of : Option Handoff → Lot
lot_of none = lot_at unpublished 0 false
lot_of (some h) =
    lot_at (phase_of h.status h.claimed_by h.claim_token_digest h.claim_lease_expires_at)
      h.claim_generation h.continuity_managed

-- The handoff with this identifier, in the tables.
unfoldable pub lot : ℕ → Store → Lot
lot i s = lot_of (fetch (has_id i) s.handoffs)
