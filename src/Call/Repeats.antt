-- ===== src/Call/Repeats.antt =====
-- How often a call that reads hands a request to tonic, batch by batch.
use mathlib.Core.List.{append_assoc}
use grpc_php_rs.Common.{
  ◌≡◌, ◌∙◌, ap, false, true, [], ◌∷◌, ◌++◌, some, none, unwrap_or, get_elem?, ℕ, arith,
}
use grpc_php_rs.Host.{Host, Table}
use grpc_php_rs.Error.{ok}
use grpc_php_rs.Metadata.Map.{Tonic}
use grpc_php_rs.Deadline.{deadline_already_expired}
use grpc_php_rs.Call.State.{Call, CallState, Environment, client, dispatched, ◌>>=◌, ◌>>◌}
use grpc_php_rs.Call.Batch.{BatchOps, parse_ops}
use grpc_php_rs.Call.Batch.Flags.{parse_ops-IsConsistent}
use grpc_php_rs.Call.Request.{build_request}
use grpc_php_rs.Call.{run_batch, start_batch, note}
use grpc_php_rs.Call.Dispatch.Repeats.{sent_call, read_sends}
use grpc_php_rs.Call.Guards.{start_batch_runs}
use grpc_php_rs.Call.Frame.{start_batch-Framed}

-- A call that goes on, on an open channel, without a stream, and whose sending is not closed.
abbrev pub IsWaiting : CallState → Type 0
IsWaiting s =
    (get_elem? s.world.flags s.call.channel_closed ≡ some false)
    × (s.call.cancelled ≡ false)
    × (s.call.finished ≡ false)
    × (s.call.stream_state ≡ none)
    × (s.call.send_closed ≡ false)

-- A batch that only reads, and not the status.
abbrev pub OnlyReads : BatchOps → Type 0
OnlyReads batch =
    (batch.has_send_ops ≡ false) × (batch.has_recv_ops ≡ true) × (batch.recv_status ≡ false)

module _ ⦃host : Host⦄ ⦃tonic : Tonic⦄ where
  -- A thread with a runtime, a path that tonic takes, and a deadline that has not passed.
  abbrev pub CanCall : Environment → Call → Type 0
  CanCall env call =
      ((rt : ℕ) × (env.runtime ≡ ok rt))
      × (env.path_error call.method ≡ none)
      × (deadline_already_expired call.deadline_usec env.now_dispatch ≡ false)

  run_batch_reads :
      (env : Environment) (batch : BatchOps) (s : CallState)
      → batch.has_send_initial_metadata ≡ false
      → batch.send_close ≡ false
      → OnlyReads batch
      → IsWaiting s
      → CanCall env s.call
      → (run_batch env batch s).1.call ≡ sent_call env s.call
  unfolding run_batch note ◌>>=◌ ◌>>◌
  run_batch_reads env batch s plain_md no_close (no_send, recv, no_status) w ((rt, e), p, late) =
      ground (
        arith,
        read_sends env batch (record s { call = note batch s.call }) rt e p late no_send w.3
            (ground (arith, w.4, no_close)),
      )

  start_batch_reads :
      (env : Environment) (ops : Table) (batch : BatchOps) (s : CallState)
      → parse_ops ops ≡ ok batch
      → OnlyReads batch
      → IsWaiting s
      → CanCall env s.call
      → (start_batch env ops s).1.call ≡ sent_call env s.call
  start_batch_reads env ops batch s parsed reads w can =
      let sends = (parse_ops-IsConsistent ops batch parsed).0 in
      let no_md : batch.has_send_initial_metadata ≡ false = ground (arith, sends, reads.0) in
      let no_close : batch.send_close ≡ false = ground (arith, sends, reads.0) in
      ap (λ r. r.1.call)
        (start_batch_runs env ops batch s w.0 w.1 w.2 parsed (ground (arith, reads.1))
          (ground (arith, no_md)))
      ∙ run_batch_reads env batch s no_md no_close reads w can

  -- Two batches that only read, and not the status, on a call that goes on without a stream and whose
  -- sending is not closed, hand two requests to tonic: the first with what was buffered, the second
  -- without a message and without metadata. Each runs on an open channel and on a thread with a
  -- runtime, before the deadline, with a method path that tonic takes.
  pub reads_send_again :
      (env env' : Environment) (ops ops' : Table) (batch batch' : BatchOps) (s : CallState)
      → parse_ops ops ≡ ok batch
      → parse_ops ops' ≡ ok batch'
      → OnlyReads batch
      → OnlyReads batch'
      → IsWaiting s
      → CanCall env s.call
      → CanCall env' s.call
      → (start_batch env' ops' (start_batch env ops s).1).1.call.events
        ≡ s.call.events
          ++ dispatched (client s.call) (
              build_request s.call.method s.call.pending_metadata []
                (some (unwrap_or s.call.pending_message []))
                s.call.deadline_usec
                env.now_request)
            ∷ dispatched
                (client s.call)
                (build_request s.call.method [] [] (some []) s.call.deadline_usec env'.now_request)
            ∷ []
  reads_send_again env env' ops ops' batch batch' s parsed parsed' reads reads' w can can' =
      let s' = (start_batch env ops s).1 in
      let first = start_batch_reads env ops batch s parsed reads w can in
      let second =
        start_batch_reads env' ops' batch' s' parsed' reads'
          (
            ap (λ flags. get_elem? flags s'.call.channel_closed) (start_batch-Framed env ops s).4.0
                ∙ (ap (λ (c : Call). get_elem? s.world.flags c.channel_closed) first ∙ w.0),
            ap (λ (c : Call). c.cancelled) first ∙ w.1,
            ap (λ (c : Call). c.finished) first ∙ w.2,
            ap (λ (c : Call). c.stream_state) first ∙ w.3,
            ap (λ (c : Call). c.send_closed) first ∙ w.4,
          )
          (
            can'.0,
            ap (λ (c : Call). env'.path_error c.method) first ∙ can'.1,
            ap (λ (c : Call). deadline_already_expired c.deadline_usec env'.now_dispatch) first
                ∙ can'.2,
          ) in
      ap (λ (c : Call). c.events) (second ∙ ap (sent_call env') first)
      ∙ append_assoc s.call.events _ _
