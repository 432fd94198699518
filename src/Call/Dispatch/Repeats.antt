-- ===== src/Call/Dispatch/Repeats.antt =====
-- How often a call hands a request to tonic when nothing has opened its stream.
use grpc_php_rs.Common.{◌≡◌, false, [], ◌∷◌, ◌++◌, Option, none, some, unwrap_or, ℕ, arith}
use grpc_php_rs.Host.{Host, Bytes}
use grpc_php_rs.Error.{ok}
use grpc_php_rs.Runtime.{pump}
use grpc_php_rs.Metadata.Map.{Tonic}
use grpc_php_rs.Metadata.{Pairs}
use grpc_php_rs.Deadline.{deadline_already_expired}
use grpc_php_rs.Call.State.{Call, CallState, Environment, client, dispatched, ◌>>=◌, ◌>>◌}
use grpc_php_rs.Call.Batch.{BatchOps}
use grpc_php_rs.Call.Request.{build_request}
use grpc_php_rs.Call.Unary.{execute_call, run_path}
use grpc_php_rs.Call.Dispatch.{
  dispatch_batch, first_read, resolve_metadata, resolve_message, resolve_plugin, take_metadata,
  take_message, choose, unary,
}

module _ ⦃host : Host⦄ ⦃tonic : Tonic⦄ where
  -- What was buffered goes out, and the buffers are empty.
  abbrev pub sent_call : Environment → Call → Call
  sent_call env c = record c {
    pending_metadata = [];
    pending_message = none;
    events =
        c.events
        ++ dispatched (client c) (
            build_request c.method c.pending_metadata [] (some (unwrap_or c.pending_message []))
              c.deadline_usec env.now_request)
          ∷ [];
  }

  execute_call_sends :
      (env : Environment) (md pm : Pairs) (message : Option Bytes) (s : CallState) (rt : ℕ)
      → env.runtime ≡ ok rt
      → env.path_error s.call.method ≡ none
      → deadline_already_expired s.call.deadline_usec env.now_dispatch ≡ false
      → (execute_call env md pm message s).1.call ≡ record s.call {
        events =
            s.call.events
            ++ dispatched (client s.call) (
                build_request s.call.method md pm
                  (some (unwrap_or message []))
                  s.call.deadline_usec
                  env.now_request)
              ∷ [];
      }
  unfolding execute_call run_path pump ◌>>=◌ ◌>>◌
  execute_call_sends env md pm message s rt e p late = ground arith

  pub read_sends :
      (env : Environment) (batch : BatchOps) (s : CallState) (rt : ℕ)
      → env.runtime ≡ ok rt
      → env.path_error s.call.method ≡ none
      → deadline_already_expired s.call.deadline_usec env.now_dispatch ≡ false
      → batch.has_send_ops ≡ false
      → s.call.stream_state ≡ none
      → s.call.send_closed ≡ false
      → (dispatch_batch env batch s).1.call ≡ sent_call env s.call
  unfolding dispatch_batch first_read resolve_metadata resolve_message resolve_plugin take_metadata
      take_message choose unary ◌>>=◌ ◌>>◌
  read_sends env batch s rt e p late reads none_yet open_still = ground (
    arith,
    execute_call_sends env s.call.pending_metadata [] s.call.pending_message
        (record s { call = record s.call { pending_metadata = []; pending_message = none } }) rt e p
        late,
  )
