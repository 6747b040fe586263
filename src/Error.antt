-- ===== src/Error.antt =====
-- src/error.rs: the crate's error, and the `io::Error` values that the code makes and converts.
use Prim.Native.String.{String}
use async_udx.Prelude.{ℕ, ◌≡◌}

-- The kinds of `io::ErrorKind` that the code names, and the rest.
pub data ErrorKind : Type 0 where
  invalid_data timed_out broken_pipe connection_reset unexpected_eof interrupted : ErrorKind
  other_kind : ℕ → ErrorKind

-- `io::Error::new(kind, message)`: its kind, and what it prints.
pub record IoError : Type 0 where
  pub kind : ErrorKind
  pub message : String

pub record UdxError : Type 0 where
  pub kind : ErrorKind
  pub reason : String

abbrev pub close_graceful : UdxError
close_graceful = record { kind = connection_reset; reason = "" }

abbrev pub closed_by_remote : UdxError
closed_by_remote = record { kind = unexpected_eof; reason = "" }

-- `From<io::Error> for UdxError`
unfoldable pub from_io : IoError → UdxError
from_io e = record { kind = e.kind; reason = e.message }

-- `From<UdxError> for io::Error`
unfoldable pub to_io : UdxError → IoError
to_io e = record { kind = e.kind; message = e.reason }

-- A call that returns, that fails with an `io::Error`, or that panics.
pub data Outcome {ℓ} (A : Type ℓ) : Type ℓ where
  ok : A → Outcome A
  err : IoError → Outcome A
  panic : Outcome A

pub err-ok : {A : Type 0} {x : IoError} {a : A} → err x ≡ ok a → ⊥
err-ok e = cc

pub panic-ok : {A : Type 0} {a : A} → panic ≡ ok a → ⊥
panic-ok e = cc
