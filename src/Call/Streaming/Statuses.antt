-- ===== src/Call/Streaming/Statuses.antt =====
-- The status that a stream reports for each course of a call, next to what a unary call reports.
use grpc_php_rs.Call.Streaming.Reading.{take_trailers_exact, spawned-Coherent}
use grpc_php_rs.Common.{refl, ℕ, ◌≡◌, ap, true, none, some, List, Option, ℤ, sym}
use grpc_php_rs.Host.{Bytes}
use grpc_php_rs.Error.{ok}
use grpc_php_rs.Metadata.Map.{Tonic}
use grpc_php_rs.Deadline.{Status, StreamTrailers}
use grpc_php_rs.Stream.Outcome.{receive_not_ready}
use grpc_php_rs.Call.Streaming.{
  Remote, show_item, trailers_from, Bool, spawned, terminated, read_message, take_trailers,
}
use grpc_php_rs.Stream.{not_ready, refused, status_trailers}
use grpc_php_rs.Stream.Reads.{receive}
use grpc_php_rs.Call.State.{Unary}
use grpc_php_rs.Call.Result.{CallResult}
use grpc_php_rs.Call.Unary.{unary_result}

-- The trailers as the result of a unary call without a message.
abbrev pub as_result : StreamTrailers → CallResult
as_result t = record {
  initial_metadata = none;
  body = none;
  trailing_metadata = some t.metadata;
  code = t.code;
  text = t.message;
}

module _ ⦃tonic : Tonic⦄ where
  -- A call that the server refuses reports the same status whether it runs as a unary call or as a
  -- stream that only its status is read from, however the stream's task is scheduled.
  pub refused_same :
      (schedule : List (ℕ × Bool)) (msg_tx : Option (List Bytes)) (status : Status) (d now : ℤ)
      → unary_result d (Unary.refused status now)
        ≡ ok (as_result (take_trailers schedule d (spawned msg_tx (refused status now))).0)
  unfolding unary_result status_trailers spawned
  refused_same schedule msg_tx status d now =
      ap (λ (t : StreamTrailers). ok (as_result t))
        (sym (
          take_trailers_exact schedule d (spawned msg_tx (Remote.refused status now))
            (spawned-Coherent msg_tx (Remote.refused status now)) refl refl))

  -- A connection that fails before the stream is open: read after a message, the status is the one of
  -- the failure; read at once, it is the code 2 of a task that ended without trailers.
  pub not_ready_loses_status :
      (schedule : List (ℕ × Bool)) (msg_tx : Option (List Bytes)) (status : Status) (d now : ℤ)
      → let s = spawned msg_tx (not_ready status) in
        ((take_trailers schedule d s).0 ≡ terminated)
        × ((take_trailers schedule d (read_message true d now s).1).0
            ≡ status_trailers status d now)
  unfolding spawned read_message show_item take_trailers trailers_from
  not_ready_loses_status schedule msg_tx status d now = (
    take_trailers_exact schedule d (spawned msg_tx (not_ready status))
        (spawned-Coherent msg_tx (not_ready status)) refl refl,
    ap
        (λ item.
          (take_trailers schedule d
            (show_item d now (item, (receive d (spawned msg_tx (not_ready status))).1)).1).0)
        (receive_not_ready status d (spawned msg_tx (not_ready status))),
  )
