-- ===== src/Stream.antt =====
-- src/call.rs: the task that drives a stream, and the channels between it and the PHP thread. The
-- spawned tasks of `start_server_stream` and `start_bidi_stream` are one and the same state machine.
pub mod Reads
pub mod Queue
pub mod Untouched
pub mod Coherence
pub mod Receive
pub mod Drain
pub mod Outcome
mod Tests
use grpc_php_rs.Common.{
  ℕ, zero, suc, Bool, List, [], ◌∷◌, ◌++◌, Option, none, some, length, ltb, ◌==◌, ℤ, if◌then◌else◌,
}
use grpc_php_rs.Host.{Bytes}
use grpc_php_rs.Metadata.Map.{MetadataMap, Tonic}
use grpc_php_rs.Metadata.{status_metadata_for_php}
use grpc_php_rs.Channel.{channel_ready, channel_transient_failure}
use grpc_php_rs.Deadline.{Status, StreamTrailers, status_to_php, deadline_exceeded_trailers}

-- How a stream that was opened ends: its last message is followed by trailers, or by an error at some
-- reading of the clock; or the call is cancelled, or its deadline fires.
pub data Ending : Type 0 where
  finished : MetadataMap → Ending
  broke : Status → ℤ → Ending
  cancelled : Ending
  expired : Ending

-- What the server, the network and the clock do to one call.
pub data Remote : Type 0 where
  not_ready : Status → Remote
  ready_elapsed : Remote
  response_elapsed : Remote
  refused : Status → ℤ → Remote
  streams : MetadataMap → List Bytes → Ending → Remote

-- An item of the message channel: `Ok(Some(bytes))`, `Ok(None)` or `Err(status)`.
pub data Item : Type 0 where
  message : Bytes → Item
  end_of_stream : Item
  failed : Status → Item

-- Where the task stands: before the response, with messages to forward, with its last item to send,
-- with the trailers to send, or returned.
pub data Task : Type 0 where
  starting : Remote → Task
  forwarding : List Bytes → Ending → Task
  closing : Item → Option StreamTrailers → Task
  reporting : StreamTrailers → Task
  done : Task

-- `ActiveStream`, with the task and the contents of the channels. `msg_tx` holds the requests sent so
-- far while the sender lives; a oneshot is its receiver's presence and the value that was sent.
pub record ActiveStream : Type 0 where
  pub msg_tx : Option (List Bytes)
  pub task : Task
  pub buffer : List Item
  pub initial_metadata : Option MetadataMap
  pub meta_rx : Bool
  pub meta_sent : Option MetadataMap
  pub cached_trailers : Option StreamTrailers
  pub trailers_rx : Bool
  pub trailers_sent : Option StreamTrailers
  -- what the task wrote to the channel's connectivity state
  pub connectivity : Option ℤ

-- `STREAM_MSG_BUFFER`
abbrev pub stream_msg_buffer : ℕ
stream_msg_buffer = 32

after_close : Option StreamTrailers → Task
after_close none = done
after_close (some trailers) = reporting trailers

-- Sends an item if the buffer has room, and goes on to the given task; parks otherwise.
push : Item → Task → ActiveStream → ActiveStream
push item next s =
    if ltb (length s.buffer) stream_msg_buffer
    then record s { buffer = s.buffer ++ item ∷ []; task = next }
    else s

module _ ⦃tonic : Tonic⦄ where
  -- The trailers for a status that ends the call.
  unfoldable pub status_trailers : Status → ℤ → ℤ → StreamTrailers
  unfolding status_to_php status_metadata_for_php
  status_trailers status deadline_usec now =
      let (code, text) = status_to_php status deadline_usec now in
      record {
        code = code;
        message = text;
        metadata = status_metadata_for_php status.metadata status.details;
      }

  pub ending_trailers : Ending → ℤ → StreamTrailers
  unfolding status_trailers deadline_exceeded_trailers
  ending_trailers (finished trailers) deadline_usec = record {
    code = 0;
    message = "";
    metadata = trailers;
  }
  ending_trailers (broke status now) deadline_usec = status_trailers status deadline_usec now
  ending_trailers cancelled deadline_usec = record {
    code = 1;
    message = "Call cancelled";
    metadata = [];
  }
  ending_trailers expired deadline_usec = deadline_exceeded_trailers

  -- The first part of the task, up to the initial metadata, which it always sends.
  begin : Remote → ℤ → ActiveStream → ActiveStream
  begin (not_ready status) deadline_usec s = record s {
    meta_sent = some [];
    task = closing (failed status) none;
  }
  begin ready_elapsed deadline_usec s = record s {
    meta_sent = some [];
    task = closing end_of_stream (some deadline_exceeded_trailers);
  }
  begin response_elapsed deadline_usec s = record s {
    meta_sent = some [];
    task = closing end_of_stream (some deadline_exceeded_trailers);
  }
  begin (refused status now) deadline_usec s = record s {
    connectivity = some (if status.code == 14 then channel_transient_failure else channel_ready);
    meta_sent = some [];
    task = closing end_of_stream (some (status_trailers status deadline_usec now));
  }
  begin (streams initial_md messages ending) deadline_usec s = record s {
    connectivity = some channel_ready;
    meta_sent = some initial_md;
    task = forwarding messages ending;
  }

  step_task : Task → ℤ → ActiveStream → ActiveStream
  unfolding begin after_close push
  step_task (starting remote) deadline_usec s = begin remote deadline_usec s
  step_task (forwarding [] ending) deadline_usec s = record s {
    task = closing end_of_stream (some (ending_trailers ending deadline_usec));
  }
  step_task (forwarding (bytes ∷ rest) ending) deadline_usec s =
      push (message bytes) (forwarding rest ending) s
  step_task (closing item trailers) deadline_usec s = push item (after_close trailers) s
  step_task (reporting trailers) deadline_usec s = record s {
    trailers_sent = some trailers;
    task = done;
  }
  step_task done deadline_usec s = s

  -- One step of the task: up to its next await.
  pub step : ℤ → ActiveStream → ActiveStream
  unfolding step_task
  step deadline_usec s = step_task s.task deadline_usec s

  -- The task runs for some steps, whenever a runtime drives it.
  pub advance : ℕ → ℤ → ActiveStream → ActiveStream
  unfolding step
  advance zero deadline_usec s = s
  advance (suc n) deadline_usec s = advance n deadline_usec (step deadline_usec s)
