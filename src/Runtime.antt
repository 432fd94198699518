-- ===== src/Runtime.antt =====
-- src/runtime.rs: who owns which tokio runtime. A runtime is an identity; what the environment
-- gives (the variable GRPC_PHP_RS_RUNTIME, the builder's outcome) is an argument.
pub mod Identity
mod Tests
use grpc_php_rs.Common.{ℕ, ◌||◌, String, Option, none, some, str_eq, ◌==◌, if◌then◌else◌}
use grpc_php_rs.Error.{GrpcError, runtime_init, Result, ok, err, ◌>>=◌}

pub data Mode : Type 0 where
  current_thread multi_thread : Mode

-- `MODE`, `MULTI`, and `LOCAL` of each PHP thread.
pub record Runtimes : Type 0 where
  pub mode : Option Mode
  pub multi : Option ℕ
  pub local : ℕ → Option ℕ

-- The value of the variable, if it is set to valid text.
mode_of : Option String → Mode
mode_of none = current_thread
mode_of (some v) =
    if str_eq v "multi-thread" || (str_eq v "multi_thread" || str_eq v "mt")
    then multi_thread
    else current_thread

-- `mode`: read once, then kept.
pub mode : Option String → Runtimes → Mode × Runtimes
unfolding mode_of
mode env s = elim s.mode [
  | some m ↦ (m, s)
  | none ↦ (mode_of env, record s { mode = some (mode_of env) })
]

-- What building a runtime gives: a new one, or an I/O error.
pub data Built : Type 0 where
  built : ℕ → Built
  failed : String → Built

unfoldable pub update : (ℕ → Option ℕ) → ℕ → ℕ → ℕ → Option ℕ
update f k v j = if j == k then some v else f j

pub get_multi : Built → Runtimes → Result GrpcError ℕ × Runtimes
get_multi outcome s = elim s.multi [
  | some rt ↦ (ok rt, s)
  | none ↦ elim outcome [
    | built rt ↦ (ok rt, record s { multi = some rt })
    | failed e ↦ (err (runtime_init e), s)
  ]
]

pub get_local : ℕ → Built → Runtimes → Result GrpcError ℕ × Runtimes
unfolding update
get_local thread outcome s = elim (s.local thread) [
  | some rt ↦ (ok rt, s)
  | none ↦ elim outcome [
    | built rt ↦ (ok rt, record s { local = update s.local thread rt })
    | failed e ↦ (err (runtime_init e), s)
  ]
]

pub get_in_mode : Mode → ℕ → Built → Runtimes → Result GrpcError ℕ × Runtimes
unfolding get_multi get_local
get_in_mode multi_thread thread outcome s = get_multi outcome s
get_in_mode current_thread thread outcome s = get_local thread outcome s

-- `get_runtime` on a PHP thread.
pub get_runtime : Option String → ℕ → Built → Runtimes → Result GrpcError ℕ × Runtimes
unfolding mode get_in_mode
get_runtime env thread outcome s = let (m, s') = mode env s in get_in_mode m thread outcome s'

-- `pump`, of what `get_runtime` returned: without what the tasks do
-- that it drives, which Call.State.drive adds; it has no result of its own.
unfoldable pub pump : Result GrpcError ℕ → Result GrpcError (Unit {0})
pump rt = rt >>= λ _. ok tt
