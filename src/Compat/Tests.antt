-- ===== src/Compat/Tests.antt =====
-- One class with one typed method, at concrete values.
use grpc_php_rs.Common.{◌≡◌, refl, ℕ, false, true, none, some, pos, str_eq, ◌==◌, if◌then◌else◌}
use grpc_php_rs.Compat.{Zend, Patched, strip_return_types}
use grpc_php_rs.Compat.Strips.{is_listed, listed, masked, strip_return_types_exact}

-- `Grpc\Call` at 7, its `cancel` at 40; the flag is bit 13.
abbrev engine : Zend
engine = record {
  try_find = λ name. if str_eq name "Grpc\\Call" then some 7 else none;
  find_ptr_lc = λ ce name. if str_eq name "cancel" then some 40 else none;
  has_return_type = λ i. i == 13;
}

abbrev typed : Patched
typed = record { init = false; memory = λ q i. true }

strip_return_types_exact_example :
    ((q i : ℕ)
      → (strip_return_types engine typed).1.memory q i
        ≡ masked engine (is_listed engine q listed) typed.memory q i)
    × ((strip_return_types engine typed).0 ≡ pos 0)
    × (strip_return_types engine (strip_return_types engine typed).1
        ≡ (pos 0, (strip_return_types engine typed).1))
strip_return_types_exact_example = strip_return_types_exact engine typed refl
