-- ===== src/Extension.antt =====
-- src/lib.rs: what the module registers when PHP starts. Whether the engine takes a constant is an
-- argument: `register_constant` fails on a name that it cannot pass on.
pub mod Constants
mod Tests
use grpc_php_rs.Common.{Bool, String, List, [], ◌∷◌, ◌++◌, ℤ, pos, negsuc, if◌then◌else◌}
use grpc_php_rs.Compat.{Zend, Patched, strip_return_types}

-- `EXT_GRPC_COMPAT_VERSION`
abbrev pub ext_grpc_compat_version : String
ext_grpc_compat_version = "1.83.0"

-- A constant's value: an i64, or a text.
pub data Value : Type 0 where
  long : ℤ → Value
  text : String → Value

abbrev pub Constants : Type 0
Constants = List (String × Value)

-- `IniEntryDef`; every entry has the permission `System`.
pub record IniEntryDef : Type 0 where
  pub name : String
  pub value : String

abbrev pub ini_entries : List IniEntryDef
ini_entries =
    record { name = "grpc.enable_fork_support"; value = "0" }
    ∷ record { name = "grpc.poll_strategy"; value = "" }
    ∷ record { name = "grpc.grpc_verbosity"; value = "" }
    ∷ record { name = "grpc.grpc_trace"; value = "" }
    ∷ []

abbrev status_codes : Constants
status_codes =
    ("Grpc\\STATUS_OK", long (pos 0))
    ∷ ("Grpc\\STATUS_CANCELLED", long (pos 1))
    ∷ ("Grpc\\STATUS_UNKNOWN", long (pos 2))
    ∷ ("Grpc\\STATUS_INVALID_ARGUMENT", long (pos 3))
    ∷ ("Grpc\\STATUS_DEADLINE_EXCEEDED", long (pos 4))
    ∷ ("Grpc\\STATUS_NOT_FOUND", long (pos 5))
    ∷ ("Grpc\\STATUS_ALREADY_EXISTS", long (pos 6))
    ∷ ("Grpc\\STATUS_PERMISSION_DENIED", long (pos 7))
    ∷ ("Grpc\\STATUS_RESOURCE_EXHAUSTED", long (pos 8))
    ∷ ("Grpc\\STATUS_FAILED_PRECONDITION", long (pos 9))
    ∷ ("Grpc\\STATUS_ABORTED", long (pos 10))
    ∷ ("Grpc\\STATUS_OUT_OF_RANGE", long (pos 11))
    ∷ ("Grpc\\STATUS_UNIMPLEMENTED", long (pos 12))
    ∷ ("Grpc\\STATUS_INTERNAL", long (pos 13))
    ∷ ("Grpc\\STATUS_UNAVAILABLE", long (pos 14))
    ∷ ("Grpc\\STATUS_DATA_LOSS", long (pos 15))
    ∷ ("Grpc\\STATUS_UNAUTHENTICATED", long (pos 16))
    ∷ []

abbrev channel_states : Constants
channel_states =
    ("Grpc\\CHANNEL_IDLE", long (pos 0))
    ∷ ("Grpc\\CHANNEL_CONNECTING", long (pos 1))
    ∷ ("Grpc\\CHANNEL_READY", long (pos 2))
    ∷ ("Grpc\\CHANNEL_TRANSIENT_FAILURE", long (pos 3))
    ∷ ("Grpc\\CHANNEL_FATAL_FAILURE", long (pos 4))
    ∷ []

abbrev call_errors : Constants
call_errors =
    ("Grpc\\CALL_OK", long (pos 0))
    ∷ ("Grpc\\CALL_ERROR", long (pos 1))
    ∷ ("Grpc\\CALL_ERROR_NOT_ON_SERVER", long (pos 2))
    ∷ ("Grpc\\CALL_ERROR_NOT_ON_CLIENT", long (pos 3))
    ∷ ("Grpc\\CALL_ERROR_ALREADY_INVOKED", long (pos 5))
    ∷ ("Grpc\\CALL_ERROR_NOT_INVOKED", long (pos 6))
    ∷ ("Grpc\\CALL_ERROR_ALREADY_FINISHED", long (pos 7))
    ∷ ("Grpc\\CALL_ERROR_TOO_MANY_OPERATIONS", long (pos 8))
    ∷ ("Grpc\\CALL_ERROR_INVALID_FLAGS", long (pos 9))
    ∷ []

abbrev operation_codes : Constants
operation_codes =
    ("Grpc\\OP_SEND_INITIAL_METADATA", long (pos 0))
    ∷ ("Grpc\\OP_SEND_MESSAGE", long (pos 1))
    ∷ ("Grpc\\OP_SEND_CLOSE_FROM_CLIENT", long (pos 2))
    ∷ ("Grpc\\OP_SEND_STATUS_FROM_SERVER", long (pos 3))
    ∷ ("Grpc\\OP_RECV_INITIAL_METADATA", long (pos 4))
    ∷ ("Grpc\\OP_RECV_MESSAGE", long (pos 5))
    ∷ ("Grpc\\OP_RECV_STATUS_ON_CLIENT", long (pos 6))
    ∷ ("Grpc\\OP_RECV_CLOSE_ON_SERVER", long (pos 7))
    ∷ []

abbrev write_flags : Constants
write_flags =
    ("Grpc\\WRITE_BUFFER_HINT", long (pos 1)) ∷ ("Grpc\\WRITE_NO_COMPRESS", long (pos 2)) ∷ []

abbrev version : Constants
version = ("Grpc\\VERSION", text ext_grpc_compat_version) ∷ []

-- The constants, in the order in which they are registered.
abbrev pub constants : Constants
constants =
    status_codes
    ++ (channel_states ++ (call_errors ++ (operation_codes ++ (write_flags ++ version))))

-- What the engine holds for the module.
pub record Registered : Type 0 where
  pub ini : List IniEntryDef
  pub constants : Constants

module _ (refuses : String → Bool) where
  -- The macro `reg!`, constant by constant: the first that is refused ends the function.
  reg : Constants → Registered → ℤ × Registered
  reg [] r = (pos 0, r)
  reg ((name, value) ∷ rest) r =
      if refuses name
      then (negsuc 0, r)
      else reg rest (record r { constants = r.constants ++ (name, value) ∷ [] })

  -- The startup function of the module.
  pub register_constants : Registered → ℤ × Registered
  unfolding reg
  register_constants r = reg constants (record r { ini = r.ini ++ ini_entries })

pub data Class : Type 0 where
  channel call channel_credentials call_credentials timeval : Class

-- `ModuleBuilder`, with what `get_module` sets.
pub record ModuleBuilder : Type 0 where
  pub name : String
  pub version : String
  pub classes : List Class
  pub startup : (String → Bool) → Registered → ℤ × Registered
  pub request_startup : Zend → Patched → ℤ × Patched

pub get_module : ModuleBuilder
get_module = record {
  name = "grpc";
  version = ext_grpc_compat_version;
  classes =
      Class.channel ∷ Class.call ∷ Class.channel_credentials ∷ Class.call_credentials
      ∷ Class.timeval ∷ [];
  startup = register_constants;
  request_startup = strip_return_types;
}
