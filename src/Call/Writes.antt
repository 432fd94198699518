-- ===== src/Call/Writes.antt =====
-- What the first message of a call does, batch by batch.
use grpc_php_rs.Common.{◌≡◌, ◌∙◌, ap, false, true, ◌&&◌, none, some, get_elem?, ℕ, arith}
use grpc_php_rs.Host.{Host, Table, Bytes}
use grpc_php_rs.Error.{ok, err, default}
use grpc_php_rs.Metadata.Map.{Tonic}
use grpc_php_rs.Deadline.{deadline_already_expired}
use grpc_php_rs.Call.State.{CallState, Environment, ◌>>=◌, ◌>>◌}
use grpc_php_rs.Call.Batch.{BatchOps, parse_ops}
use grpc_php_rs.Call.Batch.Flags.{parse_ops-IsConsistent}
use grpc_php_rs.Call.{run_batch, start_batch, note}
use grpc_php_rs.Call.Dispatch.{dispatch_batch, send_only}
use grpc_php_rs.Call.Dispatch.Losses.{expired_open_throws}
use grpc_php_rs.Call.Guards.{start_batch_runs}

-- A batch that only sends, and that sends a message without a close.
abbrev pub OnlyWrites : BatchOps → Bytes → Type 0
OnlyWrites batch message =
    (batch.has_recv_ops ≡ false) × (batch.send_message ≡ some message) × (batch.send_close ≡ false)

-- A call that goes on, on an open channel, without a stream and without a plugin.
abbrev pub IsUnopened : CallState → Type 0
IsUnopened s =
    (get_elem? s.world.flags s.call.channel_closed ≡ some false)
    × (s.call.cancelled ≡ false)
    × (s.call.finished ≡ false)
    × (s.call.stream_state ≡ none)
    × (s.call.call_plugin ≡ none)

module _ ⦃host : Host⦄ ⦃tonic : Tonic⦄ (env : Environment) where
  send_only_throws :
      (batch : BatchOps) (message : Bytes) (rt : ℕ) (s : CallState)
      → batch.has_send_ops ≡ true
      → OnlyWrites batch message
      → s.call.stream_state ≡ none
      → s.call.call_plugin ≡ none
      → env.runtime ≡ ok rt
      → deadline_already_expired s.call.deadline_usec env.now_dispatch ≡ true
      → (send_only env batch s).0 ≡ err (default "stream does not support sending")
  unfolding send_only ◌>>=◌ ◌>>◌
  send_only_throws batch message rt s sends (no_recv, m, open_still) none_yet np e late =
      let opens = expired_open_throws env message rt s e np late in
      ground (arith, none_yet, m, open_still, opens)

  dispatch_batch_throws :
      (batch : BatchOps) (message : Bytes) (rt : ℕ) (s : CallState)
      → batch.has_send_ops ≡ true
      → OnlyWrites batch message
      → s.call.stream_state ≡ none
      → s.call.call_plugin ≡ none
      → env.runtime ≡ ok rt
      → deadline_already_expired s.call.deadline_usec env.now_dispatch ≡ true
      → (dispatch_batch env batch s).0 ≡ err (default "stream does not support sending")
  unfolding dispatch_batch ◌>>=◌
  dispatch_batch_throws batch message rt s sends writes none_yet np e late =
      let throws = send_only_throws batch message rt s sends writes none_yet np e late in
      let no_recv = writes.0 in ground (arith, sends, no_recv, throws)

  run_batch_throws :
      (batch : BatchOps) (message : Bytes) (rt : ℕ) (s : CallState)
      → batch.has_send_ops ≡ true
      → OnlyWrites batch message
      → s.call.stream_state ≡ none
      → s.call.call_plugin ≡ none
      → env.runtime ≡ ok rt
      → deadline_already_expired s.call.deadline_usec env.now_dispatch ≡ true
      → (run_batch env batch s).0 ≡ err (default "stream does not support sending")
  unfolding run_batch note ◌>>=◌ ◌>>◌
  run_batch_throws batch message rt s sends writes none_yet np e late =
      let throws =
        dispatch_batch_throws batch message rt (record s { call = note batch s.call }) sends writes
          none_yet np e late in
      ground (arith, throws)

  -- On a call whose deadline has passed, the first batch that only sends, and that sends a message and
  -- does not close, throws: the stream that reports DEADLINE_EXCEEDED takes no messages. The call goes
  -- on without a stream and without a plugin on an open channel, the thread has a runtime, and the
  -- batch does not send initial metadata a second time.
  pub expired_first_write_throws :
      (ops : Table) (batch : BatchOps) (message : Bytes) (rt : ℕ) (s : CallState)
      → parse_ops ops ≡ ok batch
      → OnlyWrites batch message
      → (batch.has_send_initial_metadata && s.call.initial_metadata_sent) ≡ false
      → IsUnopened s
      → env.runtime ≡ ok rt
      → deadline_already_expired s.call.deadline_usec env.now_dispatch ≡ true
      → (start_batch env ops s).0 ≡ err (default "stream does not support sending")
  expired_first_write_throws ops batch message rt s parsed writes once u e late =
      let summary = (parse_ops-IsConsistent ops batch parsed).0 in
      let sends : batch.has_send_ops ≡ true = ground (arith, summary, writes.1) in
      ap (λ r. r.0)
        (start_batch_runs env ops batch s u.0 u.1 u.2 parsed (ground (arith, sends)) once)
      ∙ run_batch_throws batch message rt s sends writes u.3 u.4 e late
