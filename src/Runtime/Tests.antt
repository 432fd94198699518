-- ===== src/Runtime/Tests.antt =====
-- The runtime of src/runtime.rs at concrete environments.
use grpc_php_rs.Common.{◌≡◌, refl, none, some, [], ◌∷◌}
use grpc_php_rs.Error.{ok}
use grpc_php_rs.Runtime.{Runtimes, built, failed, get_runtime}
use grpc_php_rs.Runtime.Identity.{Asking, run_calls, get_runtime_stable}

abbrev fresh : Runtimes
fresh = record { mode = none; multi = none; local = λ _. none }

abbrev first_call : Asking
first_call = record { env = none; thread = 1; outcome = built 7 }

abbrev other_call : Asking
other_call = record { env = some "mt"; thread = 2; outcome = built 8 }

abbrev next_call : Asking
next_call = record { env = some "mt"; thread = 1; outcome = failed "no" }

get_runtime_stable_example :
    let later = run_calls (other_call ∷ []) (get_runtime none 1 (built 7) fresh).1 in
    get_runtime (some "mt") 1 (failed "no") later ≡ (ok 7, later)
unfolding get_runtime
get_runtime_stable_example =
    get_runtime_stable fresh first_call next_call (other_call ∷ []) 7 refl refl
