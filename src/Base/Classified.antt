-- ===== src/Base/Classified.antt =====
-- The classifications of records, in their order (`CLASSIFICATIONS` of isekai_memory/continuity/common.py
-- and of isekai_memory/retrieval/service.py).
use isekai_memory.Base.{ℕ, List, [], ◌∷◌, ltb, if◌then◌else◌}

-- `CLASSIFICATIONS`, in its order.
pub data Classification : Type 0 where
  public internal confidential restricted : Classification

-- `CLASSIFICATIONS.index`
abbrev pub rank : Classification → ℕ
rank public = 0
rank internal = 1
rank confidential = 2
rank restricted = 3

-- `max(values, key=CLASSIFICATIONS.index)`
abbrev pub highest : Classification → Classification → Classification
highest a b = if ltb (rank a) (rank b) then b else a

abbrev pub highest_of : Classification → List Classification → Classification
highest_of c [] = c
highest_of c (d ∷ t) = highest_of (highest c d) t
