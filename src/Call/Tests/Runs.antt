-- ===== src/Call/Tests/Runs.antt =====
-- Runs of several batches at concrete values.
use grpc_php_rs.Call.Sample.{open_world, fresh, close_ops, calm, fresh_call}
use grpc_php_rs.Common.{◌≤◌, All, false, ap, is_some, refl, ◌≡◌, [], ◌∷◌, some, none, pos, true}
use grpc_php_rs.Call.Status.{deliveries, status_at_most_once}
use grpc_php_rs.Call.Status.Asked.{has_op, status_iff_asked}
use grpc_php_rs.Call.Streaming.Silent.{has_status}
use grpc_php_rs.Host.{get, Zval, Table, nil, entry, ArrayKey}
use grpc_php_rs.Timeval.{Reading, to_absolute_usec}
use grpc_php_rs.Channel.Args.{size_limit}
use grpc_php_rs.Channel.{
  get_tonic_channel, get_shared, get_target_uri, get_closed_flag, get_call_plugin,
  get_max_decoding_message_size, get_max_encoding_message_size,
}
use grpc_php_rs.Channel.Sample.{no_credentials, plain, empty, two_args, one_object, sample_made}
use grpc_php_rs.Call.{construct, start_batch, check_batch, run_batch}
use grpc_php_rs.Call.Limits.{SentWith, run_batches, limits_reach_requests}
use grpc_php_rs.Call.Once.{stream_sends_once}
use grpc_php_rs.Call.Repeats.{reads_send_again}
use grpc_php_rs.Call.Frame.{Framed, batch_leaves_others}
use grpc_php_rs.Call.Streaming.Inbox.{read_all, reads-refine-inbox}
use grpc_php_rs.Call.Result.{Property}
use grpc_php_rs.Stream.{streams, expired}
use grpc_php_rs.Metadata.{array_key_to_long}
use grpc_php_rs.Metadata.Sample.{sample_host, sample_tonic}
use grpc_php_rs.Error.{ok}
use grpc_php_rs.Call.Batch.{parse_from, BatchOps, empty_batch, parse_ops, parse_op}
use grpc_php_rs.Call.State.{Environment, CallState, client, dispatched, ◌>>=◌, ◌>>◌}
use grpc_php_rs.Call.Streaming.{spawned}
use grpc_php_rs.Call.Dispatch.{dispatch_batch, on_stream}
use grpc_php_rs.Call.Request.{build_request}
use grpc_php_rs.Deadline.{deadline_already_expired}

reads-refine-inbox_example :
    read_all
      ((0, pos 5) ∷ (9, pos 6) ∷ (1, pos 7) ∷ [])
      (pos 100)
      (spawned none (streams [] ((1 ∷ []) ∷ (2 ∷ []) ∷ []) expired))
    ≡ (Property.message (some (1 ∷ [])) ∷ [])
      ∷ (Property.message (some (2 ∷ [])) ∷ [])
      ∷ (Property.message none ∷ [])
      ∷ []
reads-refine-inbox_example =
    reads-refine-inbox ((0, pos 5) ∷ (9, pos 6) ∷ (1, pos 7) ∷ []) (pos 100) none
      (streams [] ((1 ∷ []) ∷ (2 ∷ []) ∷ []) expired)

-- Another task writes to the second transport while the runtime is driven.
abbrev busy : Environment
busy = record calm { pump_writes = (1, pos 2) ∷ [] }

batch_leaves_others_example : Framed busy fresh (start_batch busy close_ops fresh).1
batch_leaves_others_example = batch_leaves_others busy close_ops fresh refl

abbrev metadata_batch : BatchOps
metadata_batch = record empty_batch { has_recv_ops = true; recv_initial_metadata = true }

-- RECV_INITIAL_METADATA
abbrev metadata_ops : Table
metadata_ops = entry (ArrayKey.long (pos 4)) (Zval.bool true) nil

reads_send_again_example :
    (start_batch calm metadata_ops (start_batch calm metadata_ops fresh).1).1.call.events
    ≡ dispatched
        (client fresh_call)
        (build_request "/pkg.Service/Method" [] [] (some []) (pos 100) (pos 11))
      ∷ dispatched
          (client fresh_call)
          (build_request "/pkg.Service/Method" [] [] (some []) (pos 100) (pos 11))
      ∷ []
unfolding empty_batch deadline_already_expired parse_ops parse_from parse_op array_key_to_long
reads_send_again_example =
    reads_send_again calm calm metadata_ops metadata_ops metadata_batch metadata_batch fresh refl
      refl (refl, refl, refl) (refl, refl, refl) (refl, refl, refl, refl, refl)
      ((0, refl), refl, refl) ((0, refl), refl, refl)

abbrev streaming : CallState
unfolding spawned
streaming = record {
  call = record fresh_call { stream_state = some (spawned none (streams [] [] expired)) };
  world = open_world;
}

stream_sends_once_example :
    let s' = (start_batch calm close_ops streaming).1 in
    (is_some s'.call.stream_state ≡ true) × (s'.call.events ≡ [])
unfolding streaming
stream_sends_once_example = stream_sends_once calm close_ops streaming refl

limits_reach_requests_example :
    All
      (SentWith (record { max_decoding = some 5; max_encoding = none }))
      (run_batches ((calm, close_ops, one_object) ∷ []) fresh_call).events
unfolding construct get_tonic_channel get_shared get_target_uri get_closed_flag get_call_plugin
    get_max_decoding_message_size get_max_encoding_message_size to_absolute_usec size_limit get
limits_reach_requests_example =
    limits_reach_requests no_credentials plain (ok 0) "localhost:1" two_args empty
      "/pkg.Service/Method" (record { usec = pos 100; is_span = false }) none
      (Reading.since_epoch 0) {c = fresh_call} ((calm, close_ops, one_object) ∷ [])
      (ap (λ r. r.0) sample_made) refl

-- RECV_STATUS_ON_CLIENT
abbrev status_ops : Table
status_ops = entry (ArrayKey.long (pos 6)) (Zval.bool true) nil

status_at_most_once_example :
    deliveries
      ((calm, close_ops, one_object)
        ∷ (calm, status_ops, one_object)
        ∷ (calm, status_ops, one_object)
        ∷ [])
      fresh_call
    ≤ 1
status_at_most_once_example =
    status_at_most_once
      ((calm, close_ops, one_object)
        ∷ (calm, status_ops, one_object)
        ∷ (calm, status_ops, one_object)
        ∷ [])
      fresh_call

status_iff_asked_example :
    has_status (Property.status [] 4 "Deadline Exceeded" ∷ []) ≡ has_op (pos 6) status_ops
unfolding start_batch check_batch run_batch dispatch_batch on_stream streaming parse_ops parse_op
    array_key_to_long ◌>>=◌ ◌>>◌
status_iff_asked_example = status_iff_asked calm status_ops streaming refl
