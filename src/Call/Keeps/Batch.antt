-- ===== src/Call/Keeps/Batch.antt =====
-- What `startBatch` keeps around the dispatch of a batch.
use grpc_php_rs.Common.{◌||◌, not, ◌&&◌, arith}
use grpc_php_rs.Host.{Host, Table}
use grpc_php_rs.Metadata.Map.{Tonic}
use grpc_php_rs.Call.Batch.{BatchOps}
use grpc_php_rs.Call.{parse_ops, lift, note, run_batch, check_batch, start_batch}
use grpc_php_rs.Call.State.{CallState, Environment, modify, gets}
use grpc_php_rs.Call.Dispatch.{dispatch_batch}
use grpc_php_rs.Call.Keeps.Active.{KeptActive}
use grpc_php_rs.Call.Keeps.{Keeps-then, Keeps-if, Keeps-bind, Keeps}

module _ ⦃host : Host⦄ ⦃tonic : Tonic⦄ (env : Environment) (P : CallState → Type 0)
    (kept : KeptActive env P)
    (dispatches : (batch : BatchOps) → Keeps P (dispatch_batch env batch)) where
  run_batch-Keeps : (batch : BatchOps) → Keeps P (run_batch env batch)
  unfolding run_batch note
  run_batch-Keeps batch =
      Keeps-bind P _ _
        (Keeps-then P (modify (note batch)) (dispatch_batch env batch)
          (λ s.
            kept.noted s.call.pending_metadata s.call.pending_message
              (s.call.send_closed || batch.send_close)
              (s.call.initial_metadata_sent || batch.has_send_initial_metadata) s.call.finished s)
          (dispatches batch))
        (λ result.
          Keeps-then P _ _
            (λ s.
              kept.noted s.call.pending_metadata s.call.pending_message s.call.send_closed
                s.call.initial_metadata_sent (s.call.finished || batch.recv_status) s)
            (λ s p. p))

  check_batch-Keeps : (batch : BatchOps) → Keeps P (check_batch env batch)
  unfolding check_batch
  check_batch-Keeps batch =
      Keeps-bind P (gets (λ c. c)) _ (λ s p. p)
        λ call.
          Keeps-if P (not batch.has_send_ops && not batch.has_recv_ops) _ _ (λ s p. p)
            (Keeps-if P call.finished _ _ (λ s p. p)
              (Keeps-if P (batch.has_send_initial_metadata && call.initial_metadata_sent) _ _
                (λ s p. p) (run_batch-Keeps batch)))

  -- What every dispatch keeps, `startBatch` keeps: its guards change nothing, and its notes are allowed for.
  pub dispatched-Keeps : (ops : Table) → Keeps P (start_batch env ops)
  unfolding start_batch
  dispatched-Keeps ops s p = ground (
    arith,
    Keeps-bind P (lift (parse_ops ops)) (check_batch env) (λ s p. p) check_batch-Keeps s p,
  )
