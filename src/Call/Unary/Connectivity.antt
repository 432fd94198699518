-- ===== src/Call/Unary/Connectivity.antt =====
-- What a unary call does: what it returns and sends, and what it makes of the connectivity state.
use grpc_php_rs.Common.{
  List, length, length-set, get_elem?-exists, ◌<◌, arith, concat, ◌≡◌, ◌⊎◌, ◌∙◌, ◌==◌, inl, inr,
  refl, Bool-cases, Option-cases, get_elem?, get_elem?-set_self, get_elem?-lt, String, ℤ, pos, true,
  false, none, some, Option, ℕ, [], ◌∷◌,
}
use grpc_php_rs.Host.{Host, Bytes}
use grpc_php_rs.Error.{ok, err, GrpcError, invalid_arg}
use grpc_php_rs.Metadata.Map.{Tonic}
use grpc_php_rs.Runtime.{pump}
use grpc_php_rs.Channel.{World, SharedChannel}
use grpc_php_rs.Channel.Connectivity.{state_of, set_state, write_states}
use grpc_php_rs.Deadline.Report.{status_to_php_exact}
use grpc_php_rs.Metadata.{Pairs}
use grpc_php_rs.Deadline.{deadline_already_expired, Status, status_to_php}
use grpc_php_rs.Call.State.{CallState, Environment, Request, Unary, ◌>>=◌, ◌>>◌}
use grpc_php_rs.Call.Unary.{
  execute_call, run_path, deadline_exceeded, unary_result, next_state, update_shared,
}

module _ ⦃host : Host⦄ ⦃tonic : Tonic⦄ (env : Environment) where
  -- A unary call whose deadline has passed, on a thread with a runtime, reports DEADLINE_EXCEEDED,
  -- builds no request and changes nothing of the call.
  pub execute_call_expired :
      (md pm : Pairs) (message : Option Bytes) (rt : ℕ) (s : CallState)
      → env.runtime ≡ ok rt
      → deadline_already_expired s.call.deadline_usec env.now_dispatch ≡ true
      → execute_call env md pm message s
        ≡ (ok deadline_exceeded, record s { world = write_states env.pump_writes s.world })
  unfolding execute_call pump ◌>>=◌ ◌>>◌
  execute_call_expired md pm message rt s e late = ground arith

-- The server was not reached, or the call was cut off before it answered.
abbrev pub Unreached : Option String → Unary → Type 0
Unreached (some path_error) course = Unit
Unreached none (Unary.not_ready e) = Unit
Unreached none Unary.ready_elapsed = ⊥
Unreached none Unary.deadline_fired = ⊥
Unreached none (Unary.responded md body) = ⊥
Unreached none (Unary.refused s now) =
    (s.code ≡ 14) ⊎ ((s.code ≡ 2) × (s.message ≡ "transport error"))
Unreached none Unary.cancelled = Unit

next_state_err : (e : GrpcError) → next_state (err e) ≡ pos 3
unfolding next_state
next_state_err e = refl

-- The states READY and TRANSIENT_FAILURE of ext-grpc, by what happened.
abbrev pub Tells : Option String → Unary → ℤ → Type 0
Tells path_error course state =
    (Unreached path_error course × (state ≡ pos 3))
    ⊎ ((Unreached path_error course → ⊥) × (state ≡ pos 2))

refused-Tells :
    ⦃tonic : Tonic⦄ (d : ℤ) (st : Status) (now : ℤ)
    → Tells none (Unary.refused st now) (next_state (unary_result d (Unary.refused st now)))
unfolding unary_result next_state
refused-Tells d st now =
    let exact = (status_to_php_exact st d now).1 in
    elim (Bool-cases ((status_to_php st d now).0 == 14)) [
      | inl down ↦ inl (exact.0 (ground (arith, down)), ground (arith, down))
      | inr up ↦ inr (λ down. ground (arith, up, exact.1 down), ground (arith, up))
    ]

result-Tells :
    ⦃tonic : Tonic⦄ (d : ℤ) (course : Unary)
    → Tells none course (next_state (unary_result d course))
unfolding unary_result next_state deadline_exceeded
result-Tells d (Unary.not_ready e) = inl (tt, refl)
result-Tells d Unary.ready_elapsed = inr (λ x. x, refl)
result-Tells d Unary.deadline_fired = inr (λ x. x, refl)
result-Tells d (Unary.responded md body) = inr (λ x. x, refl)
result-Tells d (Unary.refused st now) = refused-Tells d st now
result-Tells d Unary.cancelled = inl (tt, refl)

state_of-update_shared :
    (i : ℕ) (sh : SharedChannel) (next : ℤ) (w : World)
    → get_elem? w.shared i ≡ some sh
    → state_of (update_shared (some i) next w) i ≡ next
unfolding update_shared set_state
state_of-update_shared i sh next w e = ground (
  arith,
  e,
  get_elem?-set_self w.shared i (record sh { state = next }) (get_elem?-lt w.shared i e),
)

length-set_state :
    (i : ℕ) (state : ℤ) (w : World) → length (set_state i state w).shared ≡ length w.shared
unfolding set_state
length-set_state i state w = elim (Option-cases (get_elem? w.shared i)) [
  | inl e ↦ rw (e, set_state) refl
  | inr (sh, e) ↦ rw (e, set_state) (length-set w.shared i _)
]

length-write_states :
    (writes : List (ℕ × ℤ)) (w : World) → length (write_states writes w).shared ≡ length w.shared
unfolding write_states
length-write_states [] w = refl
length-write_states ((i, state) ∷ rest) w =
    length-write_states rest (set_state i state w) ∙ length-set_state i state w

-- A transport is still there after the other tasks wrote.
written :
    (writes : List (ℕ × ℤ)) (i : ℕ) (w : World)
    → i < length w.shared
    → (sh : SharedChannel) × (get_elem? (write_states writes w).shared i ≡ some sh)
written writes i w h =
    get_elem?-exists (write_states writes w).shared i
      (omega (arith, h, length-write_states writes w))

module _ ⦃host : Host⦄ ⦃tonic : Tonic⦄ (env : Environment) where
  -- After a unary call whose deadline had not passed, on a thread with a runtime, the call's transport,
  -- if there is one, is in TRANSIENT_FAILURE exactly if tonic refused the path, the connection failed,
  -- the call was cancelled, or the status was UNAVAILABLE or UNKNOWN with the text "transport error";
  -- otherwise, a deadline that fired included, it is READY.
  pub execute_call_state :
      (md pm : Pairs) (message : Option Bytes) (rt i : ℕ) (s : CallState)
      → env.runtime ≡ ok rt
      → deadline_already_expired s.call.deadline_usec env.now_dispatch ≡ false
      → s.call.channel_shared ≡ some i
      → i < length s.world.shared
      → Tells
          (env.path_error s.call.method)
          env.unary
          (state_of (execute_call env md pm message s).1.world i)
  unfolding execute_call run_path ◌>>=◌ ◌>>◌ pump
  execute_call_state md pm message rt i s e early own h =
      let (sh, found) = written env.pump_writes i s.world h in
      elim (Option-cases (env.path_error s.call.method)) [
        | inl path ↦
            let state : state_of (execute_call env md pm message s).1.world i
                ≡ next_state (unary_result s.call.deadline_usec env.unary) =
              ground (
                arith,
                e,
                early,
                path,
                own,
                state_of-update_shared i sh
                    (next_state (unary_result s.call.deadline_usec env.unary))
                    (write_states env.pump_writes s.world) found,
              ) in
            rw (path, state) (result-Tells s.call.deadline_usec env.unary)
        | inr (x, path) ↦
            let refused = invalid_arg (concat "invalid method path: " x) in
            let state : state_of (execute_call env md pm message s).1.world i
                ≡ next_state (err refused) =
              ground (
                arith,
                e,
                early,
                path,
                own,
                state_of-update_shared i sh (next_state (err refused))
                    (write_states env.pump_writes s.world) found,
              ) in
            rw (path, state) (inl (tt, next_state_err refused))
      ]
