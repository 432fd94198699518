-- ===== src/Call/Keeps/Routes.antt =====
-- What the primitive actions of a call keep, a whole batch keeps: one rule for each route that a
-- batch can take through `start_batch`.
use grpc_php_rs.Common.{
  ◌++◌, unwrap_or, some, not, none, [], ◌&&◌, is_some, arith, Bool, Option, List,
}
use grpc_php_rs.Host.{Table, Host, Bytes}
use grpc_php_rs.Metadata.Map.{Tonic}
use grpc_php_rs.Metadata.{Pairs}
use grpc_php_rs.Call.Batch.{BatchOps}
use grpc_php_rs.Call.{start_batch}
use grpc_php_rs.Call.State.{◌>>◌, ◌>>=◌, pure, gets, CallState, Environment}
use grpc_php_rs.Call.Streaming.Sending.{start_server_stream, start_bidi_stream, start_stream}
use grpc_php_rs.Call.Unary.{execute_call}
use grpc_php_rs.Call.Dispatch.{
  resolve_plugin, resolve_metadata, resolve_message, open_server_stream, choose, send_if_some,
  unary, recv_batch, take_message, take_metadata, send_only, first_read, dispatch_batch, open_bidi,
  dispatch_buffered, buffer, plugin_metadata,
}
use grpc_php_rs.Call.Keeps.Active.{KeptActive, send_if_some-Keeps, forward-Keeps, on_stream-Keeps}
use grpc_php_rs.Call.Keeps.Batch.{dispatched-Keeps}
use grpc_php_rs.Call.Keeps.{Keeps-then, Keeps-if, Keeps-bind, Keeps}

module _ ⦃host : Host⦄ ⦃tonic : Tonic⦄ where
  -- A property that all the primitive actions keep, and that says nothing of what is buffered.
  pub record Kept (env : Environment) (P : CallState → Type 0) : Type 0 where
    pub active : KeptActive env P
    pub opens :
        (msg_tx : Option (List Bytes)) (message : Option Bytes) (md pm : Pairs)
        → Keeps P (start_stream env msg_tx message md pm)
    pub calls : (md pm : Pairs) (message : Option Bytes) → Keeps P (execute_call env md pm message)

module _ ⦃host : Host⦄ ⦃tonic : Tonic⦄ (env : Environment) (P : CallState → Type 0)
    (kept : Kept env P) where
  plugin_metadata-Keeps : Keeps P (plugin_metadata env)
  unfolding plugin_metadata ◌>>=◌
  plugin_metadata-Keeps s p = ground arith

  take_metadata-Keeps : Keeps P take_metadata
  unfolding take_metadata ◌>>=◌ ◌>>◌
  take_metadata-Keeps s p =
      kept.active.noted [] s.call.pending_message s.call.send_closed s.call.initial_metadata_sent
        s.call.finished s p

  take_message-Keeps : Keeps P take_message
  unfolding take_message ◌>>=◌ ◌>>◌
  take_message-Keeps s p =
      kept.active.noted s.call.pending_metadata none s.call.send_closed s.call.initial_metadata_sent
        s.call.finished s p

  open_bidi-Keeps : (message : Option Bytes) → Keeps P (open_bidi env message)
  unfolding open_bidi start_bidi_stream
  open_bidi-Keeps message = Keeps-bind P take_metadata _ take_metadata-Keeps λ md.
      Keeps-bind P (plugin_metadata env) _ plugin_metadata-Keeps λ pairs.
        Keeps-then P (start_bidi_stream env md pairs) (send_if_some env message)
          (kept.opens (some []) none md pairs) (send_if_some-Keeps env P kept.active message)

  dispatch_buffered-Keeps : Keeps P (dispatch_buffered env)
  unfolding dispatch_buffered start_server_stream
  dispatch_buffered-Keeps = Keeps-bind P take_metadata _ take_metadata-Keeps λ md.
      Keeps-bind P take_message _ take_message-Keeps
        λ message. kept.opens none (some (unwrap_or message [])) md []

  buffer-Keeps : (batch : BatchOps) → Keeps P (buffer env batch)
  unfolding buffer
  buffer-Keeps batch =
      Keeps-then P _ _
        (Keeps-bind P _ _
          (Keeps-then P _ (plugin_metadata env)
            (λ s.
              kept.active.noted batch.send_metadata batch.send_message s.call.send_closed
                s.call.initial_metadata_sent s.call.finished s)
            plugin_metadata-Keeps)
          (λ pairs s.
            kept.active.noted (s.call.pending_metadata ++ pairs) s.call.pending_message
              s.call.send_closed s.call.initial_metadata_sent s.call.finished s))
        (Keeps-if P batch.send_close (dispatch_buffered env) (pure tt) dispatch_buffered-Keeps
          (λ s p. p))

  send_only-Keeps : (batch : BatchOps) → Keeps P (send_only env batch)
  unfolding send_only
  send_only-Keeps batch =
      Keeps-bind P (gets (λ c. is_some c.stream_state)) _ (λ s p. p)
        λ active.
          Keeps-then P _ (pure [])
            (Keeps-if P active _ _
              (forward-Keeps env P kept.active batch.send_message batch.send_close)
              (Keeps-if P (not batch.send_close && is_some batch.send_message) _ _
                (open_bidi-Keeps batch.send_message) (buffer-Keeps batch)))
            (λ s p. p)

  unary-Keeps :
      (batch : BatchOps) (md pm : Pairs) (message : Option Bytes)
      → Keeps P (unary env batch md pm message)
  unfolding unary
  unary-Keeps batch md pm message =
      Keeps-bind P (execute_call env md pm message) _ (kept.calls md pm message) λ result s p. p

  resolve_metadata-Keeps : (batch : BatchOps) → Keeps P (resolve_metadata env batch)
  unfolding resolve_metadata
  resolve_metadata-Keeps batch =
      Keeps-if P batch.has_send_ops _ take_metadata (λ s p. p) take_metadata-Keeps

  resolve_message-Keeps : (batch : BatchOps) → Keeps P (resolve_message env batch)
  unfolding resolve_message
  resolve_message-Keeps batch =
      Keeps-if P batch.has_send_ops _ take_message (λ s p. p) take_message-Keeps

  resolve_plugin-Keeps : (batch : BatchOps) → Keeps P (resolve_plugin env batch)
  unfolding resolve_plugin
  resolve_plugin-Keeps batch =
      Keeps-if P batch.has_send_ops (plugin_metadata env) _ plugin_metadata-Keeps (λ s p. p)

  open_server_stream-Keeps :
      (batch : BatchOps) (md pm : Pairs) (message : Option Bytes)
      → Keeps P (open_server_stream env batch md pm message)
  unfolding open_server_stream start_server_stream
  open_server_stream-Keeps batch md pm message =
      Keeps-then P _ _ (kept.opens none (some (unwrap_or message [])) md pm)
        (kept.active.reads (recv_batch batch))

  choose-Keeps :
      (batch : BatchOps) (md pm : Pairs) (message : Option Bytes) (send_closed : Bool)
      → Keeps P (choose env batch md pm message send_closed)
  unfolding choose
  choose-Keeps batch md pm message send_closed =
      Keeps-if P (batch.recv_message && batch.recv_status) _ _ (unary-Keeps batch md pm message) (
        Keeps-if P send_closed _ _ (open_server_stream-Keeps batch md pm message)
          (unary-Keeps batch md pm message))

  first_read-Keeps : (batch : BatchOps) → Keeps P (first_read env batch)
  unfolding first_read
  first_read-Keeps batch =
      Keeps-bind P (resolve_metadata env batch) _ (resolve_metadata-Keeps batch) λ md.
        Keeps-bind P (resolve_message env batch) _ (resolve_message-Keeps batch) λ message.
          Keeps-bind P (resolve_plugin env batch) _ (resolve_plugin-Keeps batch) λ pairs.
            Keeps-bind P (gets (λ c. c.send_closed)) _ (λ s p. p)
              λ send_closed. choose-Keeps batch md pairs message send_closed

  dispatch_batch-Keeps : (batch : BatchOps) → Keeps P (dispatch_batch env batch)
  unfolding dispatch_batch
  dispatch_batch-Keeps batch =
      Keeps-bind P (gets (λ c. is_some c.stream_state)) _ (λ s p. p)
        λ active.
          Keeps-if P (batch.has_send_ops && not batch.has_recv_ops) _ _ (send_only-Keeps batch) (
            Keeps-if P active _ _ (on_stream-Keeps env P kept.active batch)
              (first_read-Keeps batch))

  -- What the primitives keep, `startBatch` keeps, whether it returns or throws.
  pub start_batch-Keeps : (ops : Table) → Keeps P (start_batch env ops)
  start_batch-Keeps = dispatched-Keeps env P kept.active dispatch_batch-Keeps
