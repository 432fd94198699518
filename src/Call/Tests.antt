-- ===== src/Call/Tests.antt =====
-- A call at concrete values.
mod Runs
use grpc_php_rs.Call.Sample.{open_world, fresh, close_ops, calm, fresh_call, unavailable}
use grpc_php_rs.Common.{
  false, arith, refl, ◌≡◌, ◌⊎◌, ℕ, [], ◌∷◌, some, none, pos, true, ◌<ℤ◌, ◌≤ℤ◌, ◌-ℤ◌, i64_max,
}
use grpc_php_rs.Channel.Sample.{one_object}
use grpc_php_rs.Call.{start_batch}
use grpc_php_rs.Stream.{not_ready, refused, status_trailers}
use grpc_php_rs.Metadata.Sample.{sample_host, sample_tonic, sample-Documented}
use grpc_php_rs.Metadata.{array_key_to_long}
use grpc_php_rs.Error.{ok, err, default}
use grpc_php_rs.Metadata.Map.{ascii, entries_of}
use grpc_php_rs.Call.Batch.{
  BatchOps, parse_ops, parse_from, parse_op, empty_batch, send_message_of, flags_ok,
}
use grpc_php_rs.Call.Batch.Flags.{IsConsistent, parse_ops-IsConsistent}
use grpc_php_rs.Call.State.{CallState, Request, Unary}
use grpc_php_rs.Call.Guards.{finished_forever}
use grpc_php_rs.Call.Expired.{expired_sends_nothing}
use grpc_php_rs.Call.Integrity.{Sound, start_batch-Sound}
use grpc_php_rs.Call.Streaming.{spawned, terminated, take_trailers, read_message}
use grpc_php_rs.Call.Streaming.Reading.{take_trailers_exact, spawned-Coherent}
use grpc_php_rs.Call.Streaming.Statuses.{as_result, refused_same, not_ready_loses_status}
use grpc_php_rs.Call.Unary.{execute_call, unary_result}
use grpc_php_rs.Call.Unary.Connectivity.{Tells, execute_call_state}
use grpc_php_rs.Call.Writes.{expired_first_write_throws}
use grpc_php_rs.Call.Request.Headers.{last_value_wins, request_timeout_exact}
use grpc_php_rs.Channel.Connectivity.{state_of}
use grpc_php_rs.Host.{Table, entry, nil, ArrayKey, Zval, get}
use grpc_php_rs.Call.Dispatch.{dispatch_batch}
use grpc_php_rs.Call.Dispatch.Losses.{opening_batch_loses_metadata}
use grpc_php_rs.Call.Request.{apply_metadata, request_timeout}
use grpc_php_rs.Deadline.{deadline_already_expired}

abbrev over : CallState
over = record { call = record fresh_call { finished = true }; world = open_world }

abbrev cancelled_state : CallState
cancelled_state = record { call = record fresh_call { cancelled = true }; world = open_world }

abbrev late : CallState
late = record { call = record fresh_call { deadline_usec = pos 5 }; world = open_world }

abbrev close_batch : BatchOps
close_batch = record empty_batch { has_send_ops = true; send_close = true }

abbrev message_batch : BatchOps
message_batch = record {
  send_metadata = ("foo", "bar") ∷ [];
  has_send_initial_metadata = true;
  send_message = some (1 ∷ []);
  send_close = false;
  recv_initial_metadata = false;
  recv_message = false;
  recv_status = false;
  has_send_ops = true;
  has_recv_ops = false;
}

finished_forever_example : (start_batch calm close_ops over).1 ≡ over
finished_forever_example = finished_forever calm close_ops over refl

expired_sends_nothing_example : (start_batch calm close_ops late).1.call.events ≡ []
unfolding deadline_already_expired
expired_sends_nothing_example = expired_sends_nothing calm close_ops late refl

start_batch-Sound_example : Sound (start_batch calm close_ops fresh).1
start_batch-Sound_example = start_batch-Sound calm close_ops fresh tt

parse_ops-IsConsistent_example : IsConsistent close_batch
unfolding parse_ops parse_from parse_op empty_batch array_key_to_long
parse_ops-IsConsistent_example = parse_ops-IsConsistent close_ops close_batch refl

take_trailers_exact_example :
    (take_trailers ((2, true) ∷ []) (pos 100) (spawned none (refused unavailable (pos 12)))).0
    ≡ status_trailers unavailable (pos 100) (pos 12)
unfolding spawned
take_trailers_exact_example =
    take_trailers_exact ((2, true) ∷ []) (pos 100) (spawned none (refused unavailable (pos 12)))
      (spawned-Coherent none (refused unavailable (pos 12))) refl refl

refused_same_example :
    unary_result (pos 100) (Unary.refused unavailable (pos 12))
    ≡ ok (
        as_result
          (take_trailers
            ((2, true) ∷ [])
            (pos 100)
            (spawned none (refused unavailable (pos 12)))).0)
refused_same_example = refused_same ((2, true) ∷ []) none unavailable (pos 100) (pos 12)

not_ready_loses_status_example :
    let s = spawned none (not_ready unavailable) in
    ((take_trailers [] (pos 100) s).0 ≡ terminated)
    × ((take_trailers [] (pos 100) (read_message true (pos 100) (pos 12) s).1).0
        ≡ status_trailers unavailable (pos 100) (pos 12))
not_ready_loses_status_example = not_ready_loses_status [] none unavailable (pos 100) (pos 12)

opening_batch_loses_metadata_example :
    dispatch_batch calm message_batch fresh
    ≡ dispatch_batch calm (record message_batch { send_metadata = [] }) fresh
opening_batch_loses_metadata_example =
    opening_batch_loses_metadata calm message_batch (1 ∷ []) [] fresh refl refl refl refl refl

last_value_wins_example :
    entries_of "foo" (apply_metadata (("foo", "a") ∷ ("foo", "b") ∷ []) [])
    ≡ ascii "foo" (1 ∷ []) ∷ []
last_value_wins_example =
    last_value_wins sample-Documented (("foo", "a") ∷ []) "foo" "b" "foo" (1 ∷ []) [] refl refl

request_timeout_exact_example :
    ((request_timeout (pos 100) (pos 11) ≡ none) × ((pos 100 ≤ℤ pos 0) ⊎ (pos 100 ≡ i64_max)))
    ⊎ ((t : ℕ) × (request_timeout (pos 100) (pos 11) ≡ some t)
        × (((pos 11 <ℤ pos 100) × (pos t ≡ pos 100 -ℤ pos 11)) ⊎ ((pos 100 ≤ℤ pos 11) × (t ≡ 1))))
request_timeout_exact_example =
    request_timeout_exact (pos 100) (pos 11) (omega arith, omega arith) (omega arith)

abbrev connected : CallState
connected = record { call = fresh_call; world = one_object }

execute_call_state_example :
    Tells none
      (Unary.responded [] (5 ∷ []))
      (state_of (execute_call calm [] [] none connected).1.world 0)
unfolding deadline_already_expired
execute_call_state_example =
    execute_call_state calm [] [] none 0 0 connected refl refl refl (omega arith)

-- SEND_MESSAGE
abbrev write_ops : Table
write_ops =
    entry (ArrayKey.long (pos 1))
      (Zval.arr (entry (ArrayKey.str "message") (Zval.text (1 ∷ [])) nil)) nil

abbrev write_batch : BatchOps
write_batch = record empty_batch { has_send_ops = true; send_message = some (1 ∷ []) }

expired_first_write_throws_example :
    (start_batch calm write_ops late).0 ≡ err (default "stream does not support sending")
unfolding deadline_already_expired parse_ops parse_from parse_op send_message_of flags_ok get
    array_key_to_long empty_batch
expired_first_write_throws_example =
    expired_first_write_throws calm write_ops write_batch (1 ∷ []) 0 late refl (refl, refl, refl)
      refl (refl, refl, refl, refl, refl) refl refl
