-- ===== src/Call/Limits.antt =====
-- The limits on the size of messages, from the channel to every request.
use grpc_php_rs.Channel
use grpc_php_rs.Common.{
  ℕ, String, subst, sym, arith, ◌≡◌, ◌∷◌, [], Option, List, All, All-append, Option-cases, inl, inr,
}
use grpc_php_rs.Host.{Zval, get, Table, Host, Bytes}
use grpc_php_rs.Metadata.Map.{Tonic}
use grpc_php_rs.Metadata.{Pairs}
use grpc_php_rs.Error.{GrpcError, Result, ok}
use grpc_php_rs.Timeval.{Timeval, Reading}
use grpc_php_rs.Credentials.{ChannelCredentials}
use grpc_php_rs.Channel.Args.{size_limit}
use grpc_php_rs.Channel.Endpoint.{Transport}
use grpc_php_rs.Channel.Limits.{construct_limits}
use grpc_php_rs.Channel.{World, get_max_decoding_message_size, get_max_encoding_message_size}
use grpc_php_rs.Deadline.{deadline_already_expired}
use grpc_php_rs.Call.Batch.{BatchOps}
use grpc_php_rs.Call.{start_batch, construct}
use grpc_php_rs.Call.State.{
  Call, Client, client, Event, Request, emit, lift_grpc, drive, dispatched, ◌>>◌, ◌>>=◌, CallState,
  Environment,
}
use grpc_php_rs.Call.Streaming.{close_stream_send, build_stream_result}
use grpc_php_rs.Call.Streaming.Sending.{start_stream, send_stream_message}
use grpc_php_rs.Call.Unary.{execute_call, run_path}
use grpc_php_rs.Call.Keeps.Routes.{Kept, start_batch-Keeps}
use grpc_php_rs.Call.Keeps.{drive-Keeps, Keeps, Keeps-if, Keeps-bind, Keeps-then, Keeps-read}

-- A request that went out with these limits.
abbrev pub SentWith : Client → Event → Type 0
SentWith limits (dispatched sent request) = sent ≡ limits

module _ ⦃host : Host⦄ ⦃tonic : Tonic⦄ (env : Environment) (limits : Client) where
  -- The call has the limits, and so had each request.
  abbrev pub Limited : CallState → Type 0
  Limited s = (client s.call ≡ limits) × All (SentWith limits) s.call.events

  emit-Limited :
      (call : Call) (request : Request)
      → client call ≡ limits
      → Keeps Limited (emit (dispatched (client call) request))
  emit-Limited call request e s p =
      (p.0, All-append (SentWith limits) s.call.events (dispatched (client call) request) p.1 e)

  start_stream-Limited :
      (msg_tx : Option (List Bytes)) (message : Option Bytes) (md pm : Pairs)
      → Keeps Limited (start_stream env msg_tx message md pm)
  unfolding start_stream
  start_stream-Limited msg_tx message md pm =
      Keeps-bind Limited (lift_grpc env.runtime) _ (λ s p. p)
        λ rt. Keeps-bind Limited (drive env) _ (drive-Keeps Limited env (λ s p. p)) λ u.
          Keeps-read Limited (λ c. c) _
            λ s p.
              Keeps-if Limited (deadline_already_expired s.call.deadline_usec env.now_dispatch) _ _
                (λ s p. p)
                (elim (Option-cases (env.path_error s.call.method)) [
                  | inl e ↦ rw e (Keeps-then Limited _ _ (emit-Limited s.call _ p.0) (λ s p. p))
                  | inr (text, e) ↦ rw e (λ s p. p)
                ])
                s p

  run_path-Limited :
      (call : Call) (md pm : Pairs) (message : Option Bytes)
      → client call ≡ limits
      → Keeps Limited (run_path env call md pm message)
  unfolding run_path
  run_path-Limited call md pm message h = elim (Option-cases (env.path_error call.method)) [
    | inl e ↦ rw (e, run_path) (Keeps-then Limited _ _ (emit-Limited call _ h) (λ s p. p))
    | inr (text, e) ↦ rw (e, run_path) (λ s p. p)
  ]

  execute_call-Limited :
      (md pm : Pairs) (message : Option Bytes) → Keeps Limited (execute_call env md pm message)
  unfolding execute_call
  execute_call-Limited md pm message =
      Keeps-bind Limited (lift_grpc env.runtime) _ (λ s p. p)
        λ rt. Keeps-then Limited (drive env) _ (drive-Keeps Limited env (λ s p. p)) (
          Keeps-read Limited (λ c. c) _
            λ s p.
              Keeps-if Limited (deadline_already_expired s.call.deadline_usec env.now_dispatch) _ _
                (λ s p. p)
                (Keeps-bind Limited (run_path env s.call md pm message) _
                  (run_path-Limited s.call md pm message p.0)
                  (λ result. Keeps-then Limited _ (lift_grpc result) (λ s p. p) (λ s p. p)))
                s p)

  send_stream_message-Limited : (message : Bytes) → Keeps Limited (send_stream_message env message)
  unfolding send_stream_message ◌>>=◌ ◌>>◌
  send_stream_message-Limited message s p = ground (arith, p)

  build_stream_result-Limited : (batch : BatchOps) → Keeps Limited (build_stream_result env batch)
  unfolding build_stream_result ◌>>=◌ ◌>>◌
  build_stream_result-Limited batch s p = ground (arith, p)

  close_stream_send-Limited : Keeps Limited close_stream_send
  unfolding close_stream_send
  close_stream_send-Limited s p = p

  Limited-Kept : Kept env Limited
  Limited-Kept = record {
    active = record {
      noted = λ md message send_closed initial_metadata_sent finished s p. p;
      sends = send_stream_message-Limited;
      closes = close_stream_send-Limited;
      reads = build_stream_result-Limited;
    };
    opens = start_stream-Limited;
    calls = execute_call-Limited;
  }

module _ ⦃host : Host⦄ where
  -- The limits that a channel's arguments set.
  abbrev pub argument_limits : Table → Client
  argument_limits args = record {
    max_decoding = size_limit (get "grpc.max_receive_message_length" args);
    max_encoding = size_limit (get "grpc.max_send_message_length" args);
  }

  constructed_client :
      (ch : Channel.Channel) (method : String) (deadline : Timeval) (host_override : Option String)
      (clock : Reading) {c : Call}
      → construct ch method deadline host_override clock ≡ ok c
      → (client c ≡ record {
        max_decoding = get_max_decoding_message_size ch;
        max_encoding = get_max_encoding_message_size ch;
      })
        × (c.events ≡ [])
  unfolding construct
  constructed_client ch method deadline host_override clock e = (ground arith, ground arith)

module _ ⦃host : Host⦄ ⦃tonic : Tonic⦄ where
  -- Batches on one call, each in an environment of its own and with whatever the world is by then.
  abbrev pub run_batches : List (Environment × Table × World) → Call → Call
  run_batches [] c = c
  run_batches ((env, ops, w) ∷ rest) c =
      run_batches rest (start_batch env ops (record { call = c; world = w })).1.call

  run_batches-Limited :
      (batches : List (Environment × Table × World)) (limits : Client) (c : Call)
      → client c ≡ limits
      → All (SentWith limits) c.events
      → All (SentWith limits) (run_batches batches c).events
  run_batches-Limited [] limits c e a = a
  run_batches-Limited ((env, ops, w) ∷ rest) limits c e a =
      let p =
        start_batch-Keeps env (Limited env limits) (Limited-Kept env limits) ops
          (record { call = c; world = w }) (e, a) in
      run_batches-Limited rest limits _ p.0 p.1

  -- Every request of a call goes out with the limits that its channel's arguments set, or without
  -- limits where they set none, whatever batches are run on the call, in whatever environments, and
  -- whatever else happens to the channel in between.
  pub limits_reach_requests :
      (extract : Zval → Option ChannelCredentials) (transport : Transport)
      (runtime : Result GrpcError ℕ) (target : String) (args : Table) (w : World)
      {ch : Channel.Channel} (method : String) (deadline : Timeval) (host_override : Option String)
      (clock : Reading) {c : Call} (batches : List (Environment × Table × World))
      → (Channel.construct extract transport runtime target args w).0 ≡ ok ch
      → construct ch method deadline host_override clock ≡ ok c
      → All (SentWith (argument_limits args)) (run_batches batches c).events
  limits_reach_requests extract transport runtime target args w {ch} method deadline host_override
        clock {c} batches made called =
      let limits = construct_limits extract transport runtime target args w made in
      let fresh = constructed_client ch method deadline host_override clock called in
      run_batches-Limited batches _ c (cc (fresh.0, limits.0, limits.1)) (
        subst (λ (events : List Event). All (SentWith (argument_limits args)) events) (sym fresh.1)
          tt)
