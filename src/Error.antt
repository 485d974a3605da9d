-- ===== src/Error.antt =====
-- src/error.rs: the error enum and its retry classification. A result may also be a panic, which
-- is what Rust does at an index out of range; the theorems rule it out. A dynamic part of a
-- message text (a URL, a number) is left out of the text.
use Prim.Native.String.{String}
use link_r.Prelude.{ℕ, Bool, true, false}

-- `std::io::ErrorKind`: the kinds that `is_retriable` names, and the rest.
pub data IoErrorKind : Type 0 where
  connection_reset connection_aborted timed_out interrupted would_block other : IoErrorKind

pub data Error : Type 0 where
  not_found : String → Error
  not_modified : String → Error
  unauthenticated : String → Error
  permission_denied : String → Error
  rate_limited : ℕ → Error
  http : ℕ → String → Error
  invalid_url : String → Error
  crawl : String → String → Error
  extract : String → Error
  embed : String → Error
  format : String → Error
  dim_mismatch : ℕ → ℕ → Error
  timeout : ℕ → Error
  backend : String → String → Error
  io : IoErrorKind → Error

-- `source.kind()` against the retriable I/O kinds.
abbrev is_retriable_io : IoErrorKind → Bool
is_retriable_io IoErrorKind.other = false
is_retriable_io _ = true

-- `retriable_status` is `objstore_r::net::is_retriable_status`.
unfoldable pub is_retriable : (ℕ → Bool) → Error → Bool
is_retriable retriable_status (timeout _) = true
is_retriable retriable_status (rate_limited _) = true
is_retriable retriable_status (http status _) = retriable_status status
is_retriable retriable_status (io kind) = is_retriable_io kind
is_retriable retriable_status _ = false

-- A computation that may fail or panic.
pub data Result {ℓ} (A : Type ℓ) : Type ℓ where
  ok : A → Result A
  err : Error → Result A
  panic : Result A

infixl 5 ◌>>=◌
abbrev pub ◌>>=◌ {ℓ κ} : {A : Type ℓ} {B : Type κ} → Result A → (A → Result B) → Result B
ok a >>= f = f a
err e >>= f = err e
panic >>= f = panic
