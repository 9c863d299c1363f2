-- ===== src/Mpegts/Error.antt =====
-- crates/cheetah-container-mpegts/src/error.rs: the parser's errors.
use cheetah_media_engine.Prelude.{ℕ, String, Option, none, some}

pub data TsError : Type 0 where
  need_more_data packet_too_short lost_sync : TsError
  invalid_input : ℕ → Option String → TsError
  limit_exceeded : String → TsError
  unsupported : ℕ → Option String → TsError

-- `Result<A, TsError>`.
pub data Parsed {ℓ} (A : Type ℓ) : Type ℓ where
  ok : A → Parsed A
  err : TsError → Parsed A

infixl 5 ◌>>=◌
abbrev pub ◌>>=◌ {ℓ κ} : {A : Type ℓ} {B : Type κ} → Parsed A → (A → Parsed B) → Parsed B
ok a >>= f = f a
err e >>= f = err e

-- `map_err(|_| e)?` of a read that ran out of bytes.
abbrev pub ok_or {ℓ} : {A : Type ℓ} → Option A → TsError → Parsed A
ok_or (some a) e = ok a
ok_or none e = err e
