-- ===== src/Types/Error.antt =====
-- crates/cheetah-media-types/src/error.rs: the shared error categories.
use cheetah_media_engine.Prelude.{ℕ, String, Bool, true, false, Option}

pub data MediaError : Type 0 where
  invalid_input : ℕ → Option String → MediaError
  unsupported : ℕ → Option String → MediaError
  resource_limit : String → ℕ → ℕ → MediaError
  timeout : String → MediaError
  cancelled : MediaError
  backend_failure : ℕ → Option String → MediaError
  internal_invariant : String → MediaError

-- `Result<A, MediaError>`.
pub data Result {ℓ} (A : Type ℓ) : Type ℓ where
  ok : A → Result A
  err : MediaError → Result A

infixl 5 ◌>>=◌
abbrev pub ◌>>=◌ {ℓ κ} : {A : Type ℓ} {B : Type κ} → Result A → (A → Result B) → Result B
ok a >>= f = f a
err e >>= f = err e

unfoldable pub is_recoverable : MediaError → Bool
is_recoverable (invalid_input c m) = true
is_recoverable (unsupported c m) = true
is_recoverable (resource_limit n c l) = false
is_recoverable (timeout s) = true
is_recoverable cancelled = true
is_recoverable (backend_failure c s) = false
is_recoverable (internal_invariant m) = false

unfoldable pub error_code : MediaError → ℕ
error_code (invalid_input c m) = c
error_code (unsupported c m) = c
error_code (resource_limit n c l) = 5001
error_code (timeout s) = 5002
error_code cancelled = 5003
error_code (backend_failure c s) = c
error_code (internal_invariant m) = 9000

unfoldable pub error_stage : MediaError → String
error_stage (invalid_input c m) = "input"
error_stage (unsupported c m) = "capability"
error_stage (resource_limit n c l) = "limit"
error_stage (timeout s) = "timeout"
error_stage cancelled = "cancel"
error_stage (backend_failure c s) = "backend"
error_stage (internal_invariant m) = "invariant"
