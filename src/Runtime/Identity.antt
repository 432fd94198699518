-- ===== src/Runtime/Identity.antt =====
-- Which runtime a thread gets.
use grpc_php_rs.Common.{
  ℕ, ◌≡◌, ◌≢◌, ◌⊎◌, inl, inr, subst, sym, String, List, [], ◌∷◌, Option, some, arith,
}
use grpc_php_rs.Error.{ok}
use grpc_php_rs.Runtime.{
  current_thread, multi_thread, Runtimes, Built, mode, get_in_mode, get_multi, get_local, update,
  get_runtime,
}

-- What a thread asks with: the environment variable and the builder's outcome at that time.
pub record Asking : Type 0 where
  pub env : Option String
  pub thread : ℕ
  pub outcome : Built

-- Calls of `get_runtime` one after the other, on any threads.
abbrev pub run_calls : List Asking → Runtimes → Runtimes
run_calls [] s = s
run_calls (a ∷ rest) s = run_calls rest (get_runtime a.env a.thread a.outcome s).1

-- The thread has the runtime, in the mode that is kept.
abbrev Owns : ℕ → ℕ → Runtimes → Type 0
Owns thread rt s =
    ((s.mode ≡ some multi_thread) × (s.multi ≡ some rt))
    ⊎ ((s.mode ≡ some current_thread) × (s.local thread ≡ some rt))

get_runtime-Owns :
    (env : Option String) (thread : ℕ) (outcome : Built) (rt : ℕ) (s : Runtimes)
    → (get_runtime env thread outcome s).0 ≡ ok rt
    → Owns thread rt (get_runtime env thread outcome s).1
unfolding get_runtime mode get_in_mode get_multi get_local update
get_runtime-Owns env thread outcome rt s e = ground arith

call-Owns :
    (a : Asking) (thread rt : ℕ) (s : Runtimes)
    → Owns thread rt s
    → Owns thread rt (get_runtime a.env a.thread a.outcome s).1
unfolding get_runtime mode get_in_mode get_multi get_local update
call-Owns a thread rt s (inl (m, e)) = inl (ground arith)
call-Owns a thread rt s (inr (m, e)) = inr (ground arith)

run_calls-Owns :
    (calls : List Asking) (thread rt : ℕ) (s : Runtimes)
    → Owns thread rt s
    → Owns thread rt (run_calls calls s)
run_calls-Owns [] thread rt s o = o
run_calls-Owns (a ∷ rest) thread rt s o =
    run_calls-Owns rest thread rt (get_runtime a.env a.thread a.outcome s).1
      (call-Owns a thread rt s o)

owned :
    (env : Option String) (thread : ℕ) (outcome : Built) (rt : ℕ) (s : Runtimes)
    → Owns thread rt s
    → get_runtime env thread outcome s ≡ (ok rt, s)
unfolding get_runtime mode get_in_mode get_multi get_local
owned env thread outcome rt s (inl (m, e)) = ground arith
owned env thread outcome rt s (inr (m, e)) = ground arith

-- A thread that has a runtime keeps it: whatever calls follow, on this thread and on any others, and
-- whatever the environment variable and the builder say by then, the next call on the thread returns
-- the same runtime and changes nothing.
pub get_runtime_stable :
    (s : Runtimes) (first next : Asking) (calls : List Asking) (rt : ℕ)
    → next.thread ≡ first.thread
    → (get_runtime first.env first.thread first.outcome s).0 ≡ ok rt
    → let later = run_calls calls (get_runtime first.env first.thread first.outcome s).1 in
      get_runtime next.env next.thread next.outcome later ≡ (ok rt, later)
get_runtime_stable s first next calls rt same h =
    let later = run_calls calls (get_runtime first.env first.thread first.outcome s).1 in
    owned next.env next.thread next.outcome rt later (
      subst (λ (k : ℕ). Owns k rt later) (sym same)
        (run_calls-Owns calls first.thread rt _
          (get_runtime-Owns first.env first.thread first.outcome rt s h)))

-- In current-thread mode a call on one thread leaves the runtime of every other thread, and the
-- shared runtime, as they were.
get_runtime_isolated :
    (s : Runtimes) (env : Option String) (thread other : ℕ) (outcome : Built)
    → (mode env s).0 ≡ current_thread
    → other ≢ thread
    → ((get_runtime env thread outcome s).1.local other ≡ s.local other)
      × ((get_runtime env thread outcome s).1.multi ≡ s.multi)
unfolding get_runtime
get_runtime_isolated s env thread other outcome h ne = ground arith

-- In multi-thread mode a runtime that one thread got is what every other thread gets.
get_runtime_shared :
    (s : Runtimes) (env env' : Option String) (thread other : ℕ) (outcome outcome' : Built) (rt : ℕ)
    → (mode env s).0 ≡ multi_thread
    → (get_runtime env thread outcome s).0 ≡ ok rt
    → (get_runtime env' other outcome' (get_runtime env thread outcome s).1).0 ≡ ok rt
unfolding get_runtime
get_runtime_shared s env env' thread other outcome outcome' rt m h = ground arith
