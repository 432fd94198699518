-- ===== src/Error.antt =====
-- src/error.rs: the exceptions that PHP sees, and the errors of the extension itself.
pub mod Decimal
pub mod Ensures
use Prim.Native.String.{◌++◌}
use grpc_php_rs.Common.{String, Option, ℤ, pos, unwrap_or}
use grpc_php_rs.Host.{Host}
use Decimal.{to_string}

-- A thrown exception: its class, message and code.
pub record PhpException : Type 0 where
  pub class : String
  pub message : String
  pub code : ℤ

pub data Result {ℓ} (E : Type 0) (A : Type ℓ) : Type ℓ where
  ok : A → Result E A
  err : E → Result E A

abbrev pub PhpResult {ℓ} : Type ℓ → Type ℓ
PhpResult A = Result PhpException A

infixl 5 ◌>>=◌ ◌>>◌
abbrev pub ◌>>=◌ {ℓ κ} :
    {E : Type 0} {A : Type ℓ} {B : Type κ} → Result E A → (A → Result E B) → Result E B
ok a >>= f = f a
err e >>= f = err e

abbrev pub ◌>>◌ {ℓ κ} :
    {E : Type 0} {A : Type ℓ} {B : Type κ} → Result E A → Result E B → Result E B
m >> k = m >>= λ _. k

abbrev pub map_err {ℓ} : {E F : Type 0} {A : Type ℓ} → (E → F) → Result E A → Result F A
map_err f (ok a) = ok a
map_err f (err e) = err (f e)

-- Rust's `Option::ok_or_else`.
abbrev pub ok_or {ℓ} : {E : Type 0} {A : Type ℓ} → Option A → E → Result E A
ok_or Option.none e = err e
ok_or (Option.some a) e = ok a

-- `ce::exception()`
abbrev exception : String
exception = "Exception"

module _ ⦃host : Host⦄ where
  -- The named class, or `\Exception` where it is not found.
  class_exception : String → String → ℤ → PhpException
  class_exception class message code = record {
    class = unwrap_or (host.try_find class) exception;
    message = message;
    code = code;
  }

  unfoldable pub invalid_argument : String → PhpException
  unfolding class_exception
  invalid_argument message = class_exception "InvalidArgumentException" message (pos 1)

  unfoldable pub logic_exception : String → ℤ → PhpException
  unfolding class_exception
  logic_exception message call_error = class_exception "LogicException" message call_error

  unfoldable pub runtime_exception : String → PhpException
  unfolding class_exception
  runtime_exception message = class_exception "RuntimeException" message (pos 0)

-- An error of another library is the text that it displays.
pub data GrpcError : Type 0 where
  runtime_init : String → GrpcError
  transport : String → GrpcError
  status : ℤ → String → GrpcError
  invalid_arg : String → GrpcError
  invalid_uri : String → GrpcError
  callback_failed : String → GrpcError

-- The `#[error(...)]` texts.
display : GrpcError → String
unfolding to_string
display (runtime_init e) = "failed to initialize tokio runtime: " ++ e
display (transport e) = "transport error: " ++ e
display (status code message) = "gRPC status " ++ (to_string code ++ (": " ++ message))
display (invalid_arg e) = "invalid argument: " ++ e
display (invalid_uri e) = "invalid URI: " ++ e
display (callback_failed e) = "callback failed: " ++ e

-- `PhpException::default`
abbrev pub default : String → PhpException
default message = record { class = exception; message = message; code = pos 0 }

-- `impl From<GrpcError> for PhpException`
unfoldable pub from : GrpcError → PhpException
unfolding display
from e = record { class = exception; message = display e; code = pos 0 }
