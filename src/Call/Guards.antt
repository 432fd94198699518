-- ===== src/Call/Guards.antt =====
-- `startBatch` before it dispatches: what it refuses.
use grpc_php_rs.Common.{
  if◌then◌else◌, Bool, refl, arith, ◌≡◌, true, false, ◌&&◌, ◌||◌, some, get_elem?, pos,
}
use grpc_php_rs.Host.{Host, Table}
use grpc_php_rs.Error.{ok, err, from, status, runtime_exception, logic_exception}
use grpc_php_rs.Metadata.Map.{Tonic}
use grpc_php_rs.Call.{PhpResult, run_batch, check_batch, start_batch, called_incorrectly}
use grpc_php_rs.Call.Batch.{BatchOps, parse_ops}
use grpc_php_rs.Call.State.{CallState, Environment, lift, ◌>>=◌}

module _ ⦃host : Host⦄ ⦃tonic : Tonic⦄ (env : Environment) where
  check_batch_finished :
      (batch : BatchOps) (s : CallState) → s.call.finished ≡ true → (check_batch env batch s).1 ≡ s
  unfolding check_batch called_incorrectly ◌>>=◌
  check_batch_finished batch s done = ground arith

  check_parsed :
      (r : PhpResult BatchOps) (s : CallState)
      → s.call.finished ≡ true
      → ((lift r >>= check_batch env) s).1 ≡ s
  unfolding ◌>>=◌
  check_parsed (ok batch) s done = check_batch_finished batch s done
  check_parsed (err e) s done = refl

  -- Once the status was delivered, no batch changes anything: whatever its operations are, and whether
  -- it throws or is empty, the call, its events and the channel's world are as they were.
  pub finished_forever :
      (ops : Table) (s : CallState) → s.call.finished ≡ true → (start_batch env ops s).1 ≡ s
  unfolding start_batch ◌>>=◌
  finished_forever ops s done = ground (arith, check_parsed (parse_ops ops) s done)

  -- A batch that passes every guard is run.
  pub start_batch_runs :
      (ops : Table) (batch : BatchOps) (s : CallState)
      → get_elem? s.world.flags s.call.channel_closed ≡ some false
      → s.call.cancelled ≡ false
      → s.call.finished ≡ false
      → parse_ops ops ≡ ok batch
      → (batch.has_send_ops || batch.has_recv_ops) ≡ true
      → (batch.has_send_initial_metadata && s.call.initial_metadata_sent) ≡ false
      → start_batch env ops s ≡ run_batch env batch s
  unfolding start_batch check_batch ◌>>=◌
  start_batch_runs ops batch s opened live going parsed some_op first = ground arith

  -- A batch with operations is refused with a LogicException of code 8, and changes nothing, if the
  -- status was delivered before, or if it sends initial metadata and they were sent before. The
  -- channel is open, the call is not cancelled, and the batch parses.
  pub incorrect_batch_refused :
      (ops : Table) (batch : BatchOps) (s : CallState)
      → get_elem? s.world.flags s.call.channel_closed ≡ some false
      → s.call.cancelled ≡ false
      → parse_ops ops ≡ ok batch
      → (batch.has_send_ops || batch.has_recv_ops) ≡ true
      → (s.call.finished || (batch.has_send_initial_metadata && s.call.initial_metadata_sent))
        ≡ true
      → start_batch env ops s
        ≡ (err (logic_exception "start_batch was called incorrectly" (pos 8)), s)
  unfolding start_batch check_batch called_incorrectly ◌>>=◌
  incorrect_batch_refused ops batch s opened live parsed some_op incorrect = ground arith

  -- On a closed channel every batch throws a RuntimeException, a cancelled call or not; on an open one
  -- a cancelled call throws the status 1. Neither reads the operations or changes anything.
  pub closed_or_cancelled_refused :
      (ops : Table) (s : CallState) (closed : Bool)
      → get_elem? s.world.flags s.call.channel_closed ≡ some closed
      → (closed || s.call.cancelled) ≡ true
      → start_batch env ops s ≡ (
        err (
            if closed
            then runtime_exception "startBatch Error. Channel is closed"
            else from (status (pos 1) "Call has been cancelled")),
        s,
      )
  unfolding start_batch
  closed_or_cancelled_refused ops s closed flag shut = ground arith
