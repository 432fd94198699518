-- ===== src/Call/Streaming/Reading.antt =====
-- What reading from a stream keeps of it, and the status that a read of it gives.
use grpc_php_rs.Common.{
  ◌∙◌, ap, ℕ, suc, refl, ◌≡◌, Bool, true, false, Option, none, some, unwrap_or, List, ℤ, is_some,
  arith, inl, inr, Bool-cases, ◌||◌, not,
}
use grpc_php_rs.Metadata.Map.{Tonic}
use grpc_php_rs.Deadline.{StreamTrailers}
use grpc_php_rs.Stream.{Item, message, end_of_stream, failed, ActiveStream}
use grpc_php_rs.Stream.Reads.{receive}
use grpc_php_rs.Stream.Receive.{receive-Coherent, await_meta-Coherent}
use grpc_php_rs.Stream.Coherence.{Coherent, work, outcome, advance-Coherent}
use grpc_php_rs.Stream.Drain.{drain_exact}
use grpc_php_rs.Call.Streaming.{
  trailers_from, Remote, Bytes, expired_stream_state, spawned, terminated, resolve_meta,
  read_metadata, show_item, read_message, take_trailers, read_status, read_stream,
}
use grpc_php_rs.Call.State.{Environment}
use grpc_php_rs.Call.Batch.{BatchOps}

module _ ⦃tonic : Tonic⦄ where
  resolve_meta-Coherent : (d : ℤ) (s : ActiveStream) → Coherent s → Coherent (resolve_meta d s)
  unfolding resolve_meta
  resolve_meta-Coherent d s c = elim (Bool-cases (is_some s.initial_metadata || not s.meta_rx)) [
    | inl known ↦ rw known c
    | inr unknown ↦ rw unknown (
        let c' = await_meta-Coherent d s c in
        record { unreported = c'.unreported; unended = c'.unended })
  ]

  read_metadata-Coherent :
      (b : Bool) (d : ℤ) (s : ActiveStream) → Coherent s → Coherent (read_metadata b d s).1
  unfolding read_metadata
  read_metadata-Coherent false d s c = c
  read_metadata-Coherent true d s c =
      let c' = resolve_meta-Coherent d s c in
      record { unreported = c'.unreported; unended = c'.unended }

  show_item-Coherent :
      (r : Option Item) (d now : ℤ) (s : ActiveStream)
      → Coherent s
      → Coherent (show_item d now (r, s)).1
  unfolding show_item
  show_item-Coherent (some (message bytes)) d now s c = c
  show_item-Coherent (some end_of_stream) d now s c = c
  show_item-Coherent none d now s c = c
  show_item-Coherent (some (failed status)) d now s c = record {
    unreported = c.unreported;
    unended = c.unended;
  }

  read_message-Coherent :
      (b : Bool) (d now : ℤ) (s : ActiveStream) → Coherent s → Coherent (read_message b d now s).1
  unfolding read_message
  read_message-Coherent false d now s c = c
  read_message-Coherent true d now s c = elim (Bool-cases (is_some s.cached_trailers)) [
    | inl cached ↦ rw cached c
    | inr open_still ↦
        rw open_still
          (show_item-Coherent (receive d s).0 d now (receive d s).1 (receive-Coherent d s c))
  ]

  trailers_from-Coherent :
      (cached : Option StreamTrailers) (rx : Bool) (schedule : List (ℕ × Bool)) (d : ℤ)
      (s : ActiveStream)
      → Coherent s
      → Coherent (trailers_from cached rx schedule d s).1
  unfolding trailers_from
  trailers_from-Coherent (some t) rx schedule d s c = record {
    unreported = c.unreported;
    unended = c.unended;
  }
  trailers_from-Coherent none true schedule d s c = record {
    unreported = inl refl;
    unended = λ early. absurd early;
  }
  trailers_from-Coherent none false schedule d s c = c

  read_status-Coherent :
      (b : Bool) (schedule : List (ℕ × Bool)) (d : ℤ) (s : ActiveStream)
      → Coherent s
      → Coherent (read_status b schedule d s).1
  unfolding read_status take_trailers
  read_status-Coherent false schedule d s c = c
  read_status-Coherent true schedule d s c =
      trailers_from-Coherent s.cached_trailers s.trailers_rx schedule d s c

  pub read_stream-Coherent :
      (env : Environment) (batch : BatchOps) (d : ℤ) (s : ActiveStream)
      → Coherent s
      → Coherent (read_stream env batch d s).1
  unfolding read_stream
  read_stream-Coherent env batch d s c = read_status-Coherent batch.recv_status env.schedule d _ (
      read_message-Coherent batch.recv_message d env.now_report _
        (read_metadata-Coherent batch.recv_initial_metadata d _ (advance-Coherent env.ahead d s c)))

  -- Asking a coherent stream for its status, before an error or the status was read, always gives a status: the one
  -- that its task ends with, or the code 2 where the task ends without one. This holds for every
  -- scheduling of the task and with messages left unread.
  pub take_trailers_exact :
      (schedule : List (ℕ × Bool)) (d : ℤ) (s : ActiveStream)
      → Coherent s
      → s.cached_trailers ≡ none
      → s.trailers_rx ≡ true
      → (take_trailers schedule d s).0 ≡ unwrap_or (outcome d s) terminated
  unfolding take_trailers trailers_from
  take_trailers_exact schedule d s c e r =
      ap (λ cached. (trailers_from cached s.trailers_rx schedule d s).0) e
      ∙ ap (λ rx. (trailers_from none rx schedule d s).0) r
      ∙ ap (λ t. unwrap_or (unwrap_or t none) terminated)
          (drain_exact (suc (work s)) schedule d s c (omega arith))

pub spawned-Coherent :
    (msg_tx : Option (List Bytes)) (remote : Remote) → Coherent (spawned msg_tx remote)
unfolding spawned
spawned-Coherent msg_tx remote = record { unreported = inr refl; unended = λ early. tt }

pub expired_stream_state-Coherent : Coherent expired_stream_state
unfolding expired_stream_state
expired_stream_state-Coherent = record { unreported = inl refl; unended = λ early. absurd early }
