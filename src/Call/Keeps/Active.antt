-- ===== src/Call/Keeps/Active.antt =====
-- What a batch on an active stream keeps: it runs fewer of the primitive actions of a call.
use grpc_php_rs.Common.{◌&&◌, none, some, if◌then◌else◌, Bool, Option}
use grpc_php_rs.Host.{Host, Bytes}
use grpc_php_rs.Metadata.Map.{Tonic}
use grpc_php_rs.Metadata.{Pairs}
use grpc_php_rs.Call.Batch.{BatchOps}
use grpc_php_rs.Call.State.{pure, CallState, Environment}
use grpc_php_rs.Call.Streaming.{close_stream_send, build_stream_result}
use grpc_php_rs.Call.Streaming.Sending.{send_stream_message}
use grpc_php_rs.Call.Dispatch.{send_if_some, on_stream, forward}
use grpc_php_rs.Call.Keeps.{Keeps-then, Keeps-if, Keeps}

module _ ⦃host : Host⦄ ⦃tonic : Tonic⦄ where
  -- A property that the actions on a stream keep, and that says nothing of what is buffered and noted.
  pub record KeptActive (env : Environment) (P : CallState → Type 0) : Type 0 where
    pub noted :
        (md : Pairs) (message : Option Bytes) (send_closed initial_metadata_sent finished : Bool)
        (s : CallState)
        → P s
        → P (record s {
          call = record s.call {
            pending_metadata = md;
            pending_message = message;
            send_closed = send_closed;
            initial_metadata_sent = initial_metadata_sent;
            finished = finished;
          };
        })
    pub sends : (message : Bytes) → Keeps P (send_stream_message env message)
    pub closes : Keeps P close_stream_send
    pub reads : (batch : BatchOps) → Keeps P (build_stream_result env batch)

module _ ⦃host : Host⦄ ⦃tonic : Tonic⦄ (env : Environment) (P : CallState → Type 0)
    (kept : KeptActive env P) where
  pub send_if_some-Keeps : (message : Option Bytes) → Keeps P (send_if_some env message)
  send_if_some-Keeps none s p = p
  send_if_some-Keeps (some message) s p = kept.sends message s p

  pub forward-Keeps : (message : Option Bytes) (close : Bool) → Keeps P (forward env message close)
  unfolding forward
  forward-Keeps message close =
      Keeps-then P (send_if_some env message) _ (send_if_some-Keeps message)
        (Keeps-if P close close_stream_send (pure tt) kept.closes (λ s p. p))

  pub on_stream-Keeps : (batch : BatchOps) → Keeps P (on_stream env batch)
  unfolding on_stream
  on_stream-Keeps batch =
      Keeps-then P _ (build_stream_result env batch)
        (forward-Keeps (if batch.has_send_ops then batch.send_message else none)
          (batch.has_send_ops && batch.send_close))
        (kept.reads batch)
