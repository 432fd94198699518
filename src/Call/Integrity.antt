-- ===== src/Call/Integrity.antt =====
-- The stream of a call stays coherent through every batch.
use grpc_php_rs.Common.{
  ◌∷◌, ◌++◌, ◌⊎◌, ◌≡◌, inr, sym, subst, inl, and_then, arith, Option, none, some, List,
}
use grpc_php_rs.Host.{Table, Host, Bytes}
use grpc_php_rs.Metadata.Map.{Tonic}
use grpc_php_rs.Metadata.{Pairs}
use grpc_php_rs.Stream.{ActiveStream}
use grpc_php_rs.Stream.Coherence.{Coherent}
use grpc_php_rs.Call.Batch.{BatchOps}
use grpc_php_rs.Call.{err, lift, [], modify, start_batch}
use grpc_php_rs.Error.{default}
use grpc_php_rs.Call.Keeps.Routes.{Kept, start_batch-Keeps}
use grpc_php_rs.Call.Streaming.Reading.{
  read_stream-Coherent, spawned-Coherent, expired_stream_state-Coherent,
}
use grpc_php_rs.Call.State.{Call, ◌>>◌, ◌>>=◌, CallState, Environment, Action, lift_grpc}
use grpc_php_rs.Call.Keeps.{Keeps-if, Keeps, Keeps-bind, Keeps-read}
use grpc_php_rs.Call.Streaming.{
  spawned, expired_stream_state, read_active, drop_sender, on_active, build_stream_result,
  close_stream_send,
}
use grpc_php_rs.Call.Streaming.Sending.{send_to, start_stream, send_stream_message, send_on}
use grpc_php_rs.Call.Unary.{execute_call}

abbrev SoundStream : Option ActiveStream → Type 0
SoundStream none = Unit
SoundStream (some s) = Coherent s

-- The call has no stream, or one whose channels are coherent.
abbrev pub Sound : CallState → Type 0
Sound s = SoundStream s.call.stream_state

on_active-Sound :
    {A : Type 0} (f : ActiveStream → Action A) (o : Option ActiveStream)
    → ((s : ActiveStream) → Coherent s → Keeps Sound (f s))
    → SoundStream o
    → Keeps Sound (on_active f o)
on_active-Sound f none k h s p = p
on_active-Sound f (some a) k h s p = k a h s p

drop_sender-Sound :
    (o : Option ActiveStream) → SoundStream o → SoundStream (and_then o (λ s. some (drop_sender s)))
drop_sender-Sound none p = p
drop_sender-Sound (some s) p = record { unreported = p.unreported; unended = p.unended }

module _ ⦃host : Host⦄ ⦃tonic : Tonic⦄ (env : Environment) where
  start_stream_cases :
      (msg_tx : Option (List Bytes)) (message : Option Bytes) (md pm : Pairs) (s : CallState)
      → let after = (start_stream env msg_tx message md pm s).1.call.stream_state in
        (after ≡ s.call.stream_state)
        ⊎ ((after ≡ some expired_stream_state) ⊎ (after ≡ some (spawned msg_tx env.remote)))
  unfolding start_stream ◌>>=◌ ◌>>◌
  start_stream_cases msg_tx message md pm s = ground arith

  start_stream-Sound :
      (msg_tx : Option (List Bytes)) (message : Option Bytes) (md pm : Pairs)
      → Keeps Sound (start_stream env msg_tx message md pm)
  start_stream-Sound msg_tx message md pm s p = elim (start_stream_cases msg_tx message md pm s) [
    | inl same ↦ subst SoundStream (sym same) p
    | inr (inl late) ↦ subst SoundStream (sym late) expired_stream_state-Coherent
    | inr (inr fresh) ↦ subst SoundStream (sym fresh) (spawned-Coherent msg_tx env.remote)
  ]

  execute_call-stream :
      (md pm : Pairs) (message : Option Bytes) (s : CallState)
      → (execute_call env md pm message s).1.call.stream_state ≡ s.call.stream_state
  unfolding execute_call ◌>>=◌ ◌>>◌
  execute_call-stream md pm message s = ground arith

  execute_call-Sound :
      (md pm : Pairs) (message : Option Bytes) → Keeps Sound (execute_call env md pm message)
  execute_call-Sound md pm message s p =
      subst SoundStream (sym (execute_call-stream md pm message s)) p

  send_to-Sound :
      (sent : Option (List Bytes)) (message : Bytes) (a : ActiveStream)
      → Coherent a
      → Keeps Sound (send_to env sent message a)
  send_to-Sound none message a c s p = p
  send_to-Sound (some sent) message a c s p =
      Keeps-if Sound env.takes_messages
        (modify (λ c. record c {
          stream_state = some (record a { msg_tx = some (sent ++ message ∷ []) });
        }))
        (lift (err (default "stream send channel closed")))
        (λ s p. record { unreported = c.unreported; unended = c.unended }) (λ s p. p) s p

  send_stream_message-Sound : (message : Bytes) → Keeps Sound (send_stream_message env message)
  unfolding send_stream_message
  send_stream_message-Sound message =
      Keeps-bind Sound (lift_grpc env.runtime) _ (λ s p. p)
        (λ rt.
          Keeps-read Sound (λ c. c.stream_state) (on_active (send_on env message))
            (λ s p.
              on_active-Sound (send_on env message) s.call.stream_state
                (λ a. send_to-Sound a.msg_tx message a) p s p))

  read_active-Sound :
      (batch : BatchOps) (call : Call) (a : ActiveStream)
      → Coherent a
      → Keeps Sound (read_active env batch call a)
  unfolding ◌>>=◌ ◌>>◌
  read_active-Sound batch call a c s p =
      let c' = read_stream-Coherent env batch call.deadline_usec a c in
      record { unreported = c'.unreported; unended = c'.unended }

  build_stream_result-Sound : (batch : BatchOps) → Keeps Sound (build_stream_result env batch)
  unfolding build_stream_result
  build_stream_result-Sound batch =
      Keeps-bind Sound (lift_grpc env.runtime) _ (λ s p. p)
        (λ rt.
          Keeps-read Sound (λ c. c)
            (λ call. on_active (read_active env batch call) call.stream_state)
            (λ s p.
              on_active-Sound (read_active env batch s.call) s.call.stream_state
                (read_active-Sound batch s.call) p s p))

  close_stream_send-Sound : Keeps Sound close_stream_send
  unfolding close_stream_send
  close_stream_send-Sound s p = drop_sender-Sound s.call.stream_state p

  Sound-Kept : Kept env Sound
  Sound-Kept = record {
    active = record {
      noted = λ md message send_closed initial_metadata_sent finished s p. p;
      sends = send_stream_message-Sound;
      closes = close_stream_send-Sound;
      reads = build_stream_result-Sound;
    };
    opens = start_stream-Sound;
    calls = execute_call-Sound;
  }

  -- Whatever a batch does, and whether it returns or throws, a call whose stream is coherent (or that
  -- has none) still is afterwards: trailers come only from a task that has returned, and the end of
  -- the messages is in the buffer only once the task has sent its last item.
  pub start_batch-Sound : (ops : Table) (s : CallState) → Sound s → Sound (start_batch env ops s).1
  start_batch-Sound = start_batch-Keeps env Sound Sound-Kept
