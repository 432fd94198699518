-- ===== src/Call/Expired.antt =====
-- A call whose deadline had passed when its request would be dispatched.
use grpc_php_rs.Common.{refl, arith, ◌≡◌, true, Option, List}
use grpc_php_rs.Host.{Table, Host, Bytes}
use grpc_php_rs.Metadata.Map.{Tonic}
use grpc_php_rs.Metadata.{Pairs}
use grpc_php_rs.Deadline.{deadline_already_expired}
use grpc_php_rs.Call.Batch.{BatchOps}
use grpc_php_rs.Call.{start_batch}
use grpc_php_rs.Call.State.{◌>>◌, ◌>>=◌, Event, CallState, Environment}
use grpc_php_rs.Call.Streaming.{close_stream_send, build_stream_result}
use grpc_php_rs.Call.Streaming.Sending.{start_stream, send_stream_message}
use grpc_php_rs.Call.Unary.{execute_call}
use grpc_php_rs.Call.Keeps.Routes.{Kept, start_batch-Keeps}
use grpc_php_rs.Call.Keeps.{Keeps}

module _ ⦃host : Host⦄ ⦃tonic : Tonic⦄ (env : Environment) (sent : List Event) where
  -- The deadline has passed, and these are the requests so far.
  abbrev Quiet : CallState → Type 0
  Quiet s =
      (deadline_already_expired s.call.deadline_usec env.now_dispatch ≡ true)
      × (s.call.events ≡ sent)

  start_stream-Quiet :
      (msg_tx : Option (List Bytes)) (message : Option Bytes) (md pm : Pairs)
      → Keeps Quiet (start_stream env msg_tx message md pm)
  unfolding start_stream ◌>>=◌ ◌>>◌
  start_stream-Quiet msg_tx message md pm s p = ground arith

  execute_call-Quiet :
      (md pm : Pairs) (message : Option Bytes) → Keeps Quiet (execute_call env md pm message)
  unfolding execute_call ◌>>=◌ ◌>>◌
  execute_call-Quiet md pm message s p = ground arith

  send_stream_message-Quiet : (message : Bytes) → Keeps Quiet (send_stream_message env message)
  unfolding send_stream_message ◌>>=◌ ◌>>◌
  send_stream_message-Quiet message s p = ground arith

  build_stream_result-Quiet : (batch : BatchOps) → Keeps Quiet (build_stream_result env batch)
  unfolding build_stream_result ◌>>=◌ ◌>>◌
  build_stream_result-Quiet batch s p = ground arith

  close_stream_send-Quiet : Keeps Quiet close_stream_send
  unfolding close_stream_send
  close_stream_send-Quiet s p = p

  Quiet-Kept : Kept env Quiet
  Quiet-Kept = record {
    active = record {
      noted = λ md message send_closed initial_metadata_sent finished s p. p;
      sends = send_stream_message-Quiet;
      closes = close_stream_send-Quiet;
      reads = build_stream_result-Quiet;
    };
    opens = start_stream-Quiet;
    calls = execute_call-Quiet;
  }

module _ ⦃host : Host⦄ ⦃tonic : Tonic⦄ where
  -- A batch that runs once the deadline of the call has passed hands no request to tonic, whatever its
  -- operations are and whatever the environment does: no unary request and no stream.
  pub expired_sends_nothing :
      (env : Environment) (ops : Table) (s : CallState)
      → deadline_already_expired s.call.deadline_usec env.now_dispatch ≡ true
      → (start_batch env ops s).1.call.events ≡ s.call.events
  expired_sends_nothing env ops s late =
      (start_batch-Keeps env (Quiet env s.call.events) (Quiet-Kept env s.call.events) ops s
        (late, refl)).1
