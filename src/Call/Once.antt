-- ===== src/Call/Once.antt =====
-- A call with a stream sends no other request.
use grpc_php_rs.Common.{
  Bool, true, false, [], ◌≡◌, refl, is_some, not, ◌&&◌, List, if◌then◌else◌, arith,
}
use grpc_php_rs.Host.{Host, Bytes, Table}
use grpc_php_rs.Metadata.Map.{Tonic}
use grpc_php_rs.Call.Batch.{BatchOps}
use grpc_php_rs.Call.{start_batch}
use grpc_php_rs.Call.State.{Action, Event, CallState, Environment, pure, ◌>>=◌, ◌>>◌}
use grpc_php_rs.Call.Streaming.{close_stream_send, build_stream_result}
use grpc_php_rs.Call.Streaming.Sending.{send_stream_message}
use grpc_php_rs.Call.Dispatch.{dispatch_batch, send_only}
use grpc_php_rs.Call.Keeps.Active.{KeptActive, forward-Keeps, on_stream-Keeps}
use grpc_php_rs.Call.Keeps.Batch.{dispatched-Keeps}
use grpc_php_rs.Call.Keeps.{Keeps, Keeps-if, Keeps-then, Keeps-read}

Keeps-taken :
    (P : CallState → Type 0) {A : Type 0} (b : Bool) (m n : Action A)
    → b ≡ true
    → Keeps P m
    → Keeps P (if b then m else n)
Keeps-taken P true m n e k = k
Keeps-taken P false m n e k = absurd (cc)

module _ ⦃host : Host⦄ ⦃tonic : Tonic⦄ (env : Environment) (sent : List Event) where
  -- The call has a stream, and these are the requests so far.
  abbrev Streaming : CallState → Type 0
  Streaming s = (is_some s.call.stream_state ≡ true) × (s.call.events ≡ sent)

  send_stream_message-Streaming :
      (message : Bytes) → Keeps Streaming (send_stream_message env message)
  unfolding send_stream_message ◌>>=◌ ◌>>◌
  send_stream_message-Streaming message s p = ground arith

  close_stream_send-Streaming : Keeps Streaming close_stream_send
  unfolding close_stream_send
  close_stream_send-Streaming s p = ground arith

  build_stream_result-Streaming :
      (batch : BatchOps) → Keeps Streaming (build_stream_result env batch)
  unfolding build_stream_result ◌>>=◌ ◌>>◌
  build_stream_result-Streaming batch s p = ground arith

  Streaming-Kept : KeptActive env Streaming
  Streaming-Kept = record {
    noted = λ md message send_closed initial_metadata_sent finished s p. p;
    sends = send_stream_message-Streaming;
    closes = close_stream_send-Streaming;
    reads = build_stream_result-Streaming;
  }

  send_only-Streaming : (batch : BatchOps) → Keeps Streaming (send_only env batch)
  unfolding send_only
  send_only-Streaming batch =
      Keeps-read Streaming (λ c. is_some c.stream_state) _
        λ s p.
          Keeps-then Streaming _ (pure [])
            (Keeps-taken Streaming (is_some s.call.stream_state) _ _ p.0
              (forward-Keeps env Streaming Streaming-Kept batch.send_message batch.send_close))
            (λ s p. p) s p

  dispatch_batch-Streaming : (batch : BatchOps) → Keeps Streaming (dispatch_batch env batch)
  unfolding dispatch_batch
  dispatch_batch-Streaming batch =
      Keeps-read Streaming (λ c. is_some c.stream_state) _
        λ s p.
          Keeps-if Streaming (batch.has_send_ops && not batch.has_recv_ops) _ _
            (send_only-Streaming batch)
            (Keeps-taken Streaming (is_some s.call.stream_state) _ _ p.0
              (on_stream-Keeps env Streaming Streaming-Kept batch))
            s p

module _ ⦃host : Host⦄ ⦃tonic : Tonic⦄ where
  -- Once a call has a stream, no batch hands another request to tonic and none takes the stream away,
  -- whatever its operations are, whatever the environment does, and whether it returns or throws.
  pub stream_sends_once :
      (env : Environment) (ops : Table) (s : CallState)
      → is_some s.call.stream_state ≡ true
      → let s' = (start_batch env ops s).1 in
        (is_some s'.call.stream_state ≡ true) × (s'.call.events ≡ s.call.events)
  stream_sends_once env ops s active =
      dispatched-Keeps env (Streaming env s.call.events) (Streaming-Kept env s.call.events)
        (dispatch_batch-Streaming env s.call.events) ops s (active, refl)
