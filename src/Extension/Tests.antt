-- ===== src/Extension/Tests.antt =====
-- Startup at concrete values.
use grpc_php_rs.Common.{◌≡◌, [], ◌∷◌, pos, negsuc, str_eq}
use grpc_php_rs.Extension.{Registered, Value, ini_entries, register_constants}
use grpc_php_rs.Extension.Constants.{register_constants_exact}

abbrev nothing : Registered
nothing = record { ini = []; constants = [] }

-- The engine refuses the second constant.
register_constants_exact_example :
    register_constants (λ n. str_eq n "Grpc\\STATUS_CANCELLED") nothing ≡ (
      negsuc 0,
      record { ini = ini_entries; constants = ("Grpc\\STATUS_OK", Value.long (pos 0)) ∷ [] },
    )
register_constants_exact_example =
    register_constants_exact (λ n. str_eq n "Grpc\\STATUS_CANCELLED") nothing
