-- ===== src/Call/Unary.antt =====
-- src/call.rs: a unary call, run to its end on the PHP thread.
pub mod Connectivity
use grpc_php_rs.Common.{concat, ℕ, [], Option, none, some, unwrap_or, ◌==◌, ℤ, pos, if◌then◌else◌}
use grpc_php_rs.Host.{Host, Bytes}
use grpc_php_rs.Error.{GrpcError, transport, status, invalid_arg, Result, ok, err}
use grpc_php_rs.Runtime.{pump}
use grpc_php_rs.Metadata.Map.{Tonic}
use grpc_php_rs.Metadata.{Pairs, status_metadata_for_php}
use grpc_php_rs.Deadline.{deadline_already_expired, status_to_php}
use grpc_php_rs.Channel.{World, channel_ready, channel_transient_failure}
use grpc_php_rs.Channel.Connectivity.{set_state}
use grpc_php_rs.Call.State.{
  Call, Unary, not_ready, ready_elapsed, deadline_fired, responded, refused, cancelled, Environment,
  Action, client, dispatched, drive, lift_grpc, gets, modify_world, emit, pure, ◌>>=◌, ◌>>◌,
}
use grpc_php_rs.Call.Request.{build_request}
use grpc_php_rs.Call.Result.{CallResult}

unfoldable pub deadline_exceeded : CallResult
deadline_exceeded = record {
  initial_metadata = none;
  body = none;
  trailing_metadata = some [];
  code = 4;
  text = "Deadline Exceeded";
}

module _ ⦃tonic : Tonic⦄ where
  -- The result of the future that the runtime blocks on, for each course of the call.
  unfoldable pub unary_result : ℤ → Unary → Result GrpcError CallResult
  unfolding deadline_exceeded status_to_php status_metadata_for_php
  unary_result deadline_usec (not_ready e) = err (transport e)
  unary_result deadline_usec ready_elapsed = ok deadline_exceeded
  unary_result deadline_usec deadline_fired = ok deadline_exceeded
  unary_result deadline_usec (responded metadata body) = ok (record {
    initial_metadata = some metadata;
    body = some body;
    trailing_metadata = none;
    code = 0;
    text = "";
  })
  unary_result deadline_usec (refused s now) =
      let (code, text) = status_to_php s deadline_usec now in
      ok (record {
        initial_metadata = none;
        body = none;
        trailing_metadata = some (status_metadata_for_php s.metadata s.details);
        code = code;
        text = text;
      })
  unary_result deadline_usec cancelled = err (status (pos 1) "Call cancelled")

-- The channel's connectivity after a unary call.
unfoldable pub next_state : Result GrpcError CallResult → ℤ
next_state (ok r) = if r.code == 14 then channel_transient_failure else channel_ready
next_state (err e) = channel_transient_failure

unfoldable pub update_shared : Option ℕ → ℤ → World → World
update_shared none next w = w
update_shared (some i) next w = set_state i next w

module _ ⦃host : Host⦄ ⦃tonic : Tonic⦄ (env : Environment) where
  -- A path that tonic refuses ends the future before anything is sent.
  unfoldable pub run_path :
      Call → Pairs → Pairs → Option Bytes → Action (Result GrpcError CallResult)
  unfolding unary_result build_request
  run_path call send_metadata plugin_metadata send_message = elim (env.path_error call.method) [
    | some e ↦ pure (err (invalid_arg (concat "invalid method path: " e)))
    | none ↦
        emit (
          dispatched (client call) (
            build_request call.method send_metadata plugin_metadata
              (some (unwrap_or send_message [])) call.deadline_usec env.now_request))
        >> pure (unary_result call.deadline_usec env.unary)
  ]

  unfoldable pub execute_call : Pairs → Pairs → Option Bytes → Action CallResult
  unfolding run_path next_state update_shared deadline_exceeded deadline_already_expired pump
  execute_call send_metadata plugin_metadata send_message = do
    rt ← lift_grpc env.runtime
    drive env
    call ← gets (λ c. c)
    if deadline_already_expired call.deadline_usec env.now_dispatch
        then pure deadline_exceeded
        else do
          result ← run_path call send_metadata plugin_metadata send_message
          modify_world (update_shared call.channel_shared (next_state result))
          lift_grpc result
