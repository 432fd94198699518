-- ===== src/Call/Streaming/Sending.antt =====
-- src/call.rs: opening the stream of a call, and sending on it.
use grpc_php_rs.Common.{concat, List, [], ◌∷◌, ◌++◌, Option, none, some, unwrap_or, if◌then◌else◌}
use grpc_php_rs.Host.{Bytes}
use grpc_php_rs.Error.{invalid_arg, err, default, from}
use grpc_php_rs.Runtime.{pump}
use grpc_php_rs.Metadata.Map.{Tonic}
use grpc_php_rs.Metadata.{Pairs}
use grpc_php_rs.Deadline.{deadline_already_expired}
use grpc_php_rs.Stream.{ActiveStream}
use grpc_php_rs.Call.State.{
  Environment, Action, client, dispatched, lift, lift_grpc, drive, gets, modify, emit, ◌>>=◌, ◌>>◌,
}
use grpc_php_rs.Call.Request.{build_request}
use grpc_php_rs.Call.Streaming.{on_active, expired_stream_state, spawned}

module _ ⦃tonic : Tonic⦄ (env : Environment) where
  -- Opens a stream: one message is in the request, or the messages follow.
  unfoldable pub start_stream :
      Option (List Bytes) → Option Bytes → Pairs → Pairs → Action (Unit {0})
  unfolding expired_stream_state spawned build_request deadline_already_expired pump
  start_stream msg_tx message send_metadata plugin_metadata = lift_grpc env.runtime >>= λ rt.
      drive env >>= λ u. gets (λ c. c) >>= λ call.
      if deadline_already_expired call.deadline_usec env.now_dispatch
      then modify (λ c. record c { stream_state = some expired_stream_state })
      else elim (env.path_error call.method) [
        | some e ↦ lift (err (from (invalid_arg (concat "invalid method path: " e))))
        | none ↦
            emit (
              dispatched (client call) (
                build_request call.method send_metadata plugin_metadata message call.deadline_usec
                  env.now_request))
            >> modify (λ c. record c { stream_state = some (spawned msg_tx env.remote) })
      ]

  unfoldable pub start_server_stream : Pairs → Pairs → Option Bytes → Action (Unit {0})
  unfolding start_stream
  start_server_stream send_metadata plugin_metadata send_message =
      start_stream none (some (unwrap_or send_message [])) send_metadata plugin_metadata

  unfoldable pub start_bidi_stream : Pairs → Pairs → Action (Unit {0})
  unfolding start_stream
  start_bidi_stream send_metadata plugin_metadata =
      start_stream (some []) none send_metadata plugin_metadata

  -- Whether the sender's channel still has its receiver is the environment's choice.
  abbrev pub send_to : Option (List Bytes) → Bytes → ActiveStream → Action (Unit {0})
  send_to none message s = lift (err (default "stream does not support sending"))
  send_to (some sent) message s =
      if env.takes_messages
      then modify (λ c. record c {
        stream_state = some (record s { msg_tx = some (sent ++ message ∷ []) });
      })
      else lift (err (default "stream send channel closed"))

  abbrev pub send_on : Bytes → ActiveStream → Action (Unit {0})
  send_on message s = send_to s.msg_tx message s

  unfoldable pub send_stream_message : Bytes → Action (Unit {0})
  send_stream_message message =
      lift_grpc env.runtime >>= λ rt. gets (λ c. c.stream_state) >>= on_active (send_on message)
