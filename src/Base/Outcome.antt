-- ===== src/Base/Outcome.antt =====
-- Results of fallible code: a value, or the `MemoryToolError` that it raises
-- (isekai_memory/server/errors.py). An error is told apart by its `error_code` and HTTP status.
use Prim.Native.Nat.{ℕ}
use mathlib.Core.Bool.{Bool, true, false}

-- The series of an `error_code`: the word between `MEM-` and the number.
pub data Series : Type 0 where
  auth tool mcp handoff policy registry experience generation continuity presence usage : Series

pub record ToolError : Type 0 where
  pub series : Series
  pub number : ℕ
  pub http_status : ℕ

pub data Result {ℓ} (A : Type ℓ) : Type ℓ where
  ok : A → Result A
  raise : ToolError → Result A

-- A `MemoryToolError` with its default status, 400.
abbrev pub tool_error : Series → ℕ → ToolError
tool_error s n = record { series = s; number = n; http_status = 400 }

infixl 5 ◌>>=◌ ◌>>◌
abbrev pub ◌>>=◌ {ℓ κ} : {A : Type ℓ} {B : Type κ} → Result A → (A → Result B) → Result B
ok a >>= f = f a
raise e >>= f = raise e

abbrev pub ◌>>◌ {ℓ} : {B : Type ℓ} → Result (Unit {0}) → Result B → Result B
m >> k = m >>= λ _. k

-- `if test: raise e`
abbrev pub raise_if : Bool → ToolError → Result (Unit {0})
raise_if true e = raise e
raise_if false e = ok tt
