-- ===== src/Call/Frame.antt =====
-- What a batch leaves alone: the identity of its call, the flags, the registry, and the transports
-- that neither it nor another task writes to.
pub mod Worlds
use grpc_php_rs.Common.{
  ◌∙◌, inr, inl, Option-cases, ℕ, refl, ◌≡◌, sym, List, Option, none, some, ℤ, arith,
}
use grpc_php_rs.Host.{Table, Host, Bytes}
use grpc_php_rs.Metadata.Map.{Tonic}
use grpc_php_rs.Metadata.{Pairs}
use grpc_php_rs.Deadline.{deadline_already_expired}
use grpc_php_rs.Stream.{ActiveStream}
use grpc_php_rs.Channel.Grows.{Grows, Grows-same}
use grpc_php_rs.Channel.{World}
use grpc_php_rs.Channel.Connectivity.{write_states}
use grpc_php_rs.Call.Batch.{BatchOps}
use grpc_php_rs.Call.{start_batch}
use grpc_php_rs.Call.State.{
  ◌>>◌, ◌>>=◌, CallState, Environment, Call, drive, lift_grpc, modify_world,
}
use grpc_php_rs.Call.Streaming.{
  on_active, read_active, read_stream, close_stream_send, build_stream_result, published,
}
use grpc_php_rs.Call.Streaming.Sending.{start_stream, send_stream_message}
use grpc_php_rs.Call.Unary.{execute_call, run_path, next_state, update_shared}
use grpc_php_rs.Call.Frame.Worlds.{
  IsIdle, Beside, write_states-Beside, update_shared-Beside, publish-Beside,
}
use grpc_php_rs.Call.Keeps.Routes.{Kept, start_batch-Keeps}
use grpc_php_rs.Call.Keeps.{drive-Keeps, Keeps, Keeps-if, Keeps-bind, Keeps-then, Keeps-read}

module _ ⦃host : Host⦄ ⦃tonic : Tonic⦄ (env : Environment) (start : CallState) where
  -- The call is the same call, and the world is as it was beside its transport.
  abbrev pub Framed : CallState → Type 0
  Framed s =
      (s.call.channel_shared ≡ start.call.channel_shared)
      × (s.call.channel_closed ≡ start.call.channel_closed)
      × (s.call.deadline_usec ≡ start.call.deadline_usec)
      × (s.call.cancelled ≡ start.call.cancelled)
      × Beside (IsIdle env start.call.channel_shared) start.world s.world

  moved-Framed :
      (f : World → World)
      → ((w : World)
          → Beside (IsIdle env start.call.channel_shared) start.world w
          → Beside (IsIdle env start.call.channel_shared) start.world (f w))
      → Keeps Framed (modify_world f)
  moved-Framed f k s p = (p.0, p.1, p.2, p.3, k s.world p.4)

  drive-Framed : Keeps Framed (drive env)
  drive-Framed = drive-Keeps Framed env (
      moved-Framed (write_states env.pump_writes)
        λ w. write_states-Beside _ env.pump_writes start.world w (λ j idle. idle.1))

  start_stream-Framed :
      (msg_tx : Option (List Bytes)) (message : Option Bytes) (md pm : Pairs)
      → Keeps Framed (start_stream env msg_tx message md pm)
  unfolding start_stream
  start_stream-Framed msg_tx message md pm =
      Keeps-bind Framed (lift_grpc env.runtime) _ (λ s p. p)
        λ rt. Keeps-bind Framed (drive env) _ drive-Framed λ u.
          Keeps-read Framed (λ c. c) _
            λ s p.
              Keeps-if Framed (deadline_already_expired s.call.deadline_usec env.now_dispatch) _ _
                (λ s p. p)
                (elim (Option-cases (env.path_error s.call.method)) [
                  | inl e ↦ rw e (Keeps-then Framed _ _ (λ s p. p) (λ s p. p))
                  | inr (x, e) ↦ rw e (λ s p. p)
                ])
                s p

  update_shared-Framed :
      (own : Option ℕ) (next : ℤ)
      → own ≡ start.call.channel_shared
      → Keeps Framed (modify_world (update_shared own next))
  update_shared-Framed own next e =
      moved-Framed (update_shared own next)
        λ w. update_shared-Beside _ own next start.world w (λ j idle q. idle.0 (sym e ∙ q))

  run_path-Framed :
      (call : Call) (md pm : Pairs) (message : Option Bytes)
      → Keeps Framed (run_path env call md pm message)
  unfolding run_path ◌>>=◌ ◌>>◌
  run_path-Framed call md pm message s p = ground (arith, p)

  execute_call-Framed :
      (md pm : Pairs) (message : Option Bytes) → Keeps Framed (execute_call env md pm message)
  unfolding execute_call
  execute_call-Framed md pm message =
      Keeps-bind Framed (lift_grpc env.runtime) _ (λ s p. p)
        λ rt. Keeps-then Framed (drive env) _ drive-Framed (
          Keeps-read Framed (λ c. c) _
            λ s p.
              Keeps-if Framed (deadline_already_expired s.call.deadline_usec env.now_dispatch) _ _
                (λ s p. p)
                (Keeps-bind Framed (run_path env s.call md pm message) _
                  (run_path-Framed s.call md pm message)
                  (λ result.
                    Keeps-then Framed _ (lift_grpc result)
                      (update_shared-Framed s.call.channel_shared (next_state result) p.0)
                      (λ s p. p)))
                s p)

  send_stream_message-Framed : (message : Bytes) → Keeps Framed (send_stream_message env message)
  unfolding send_stream_message ◌>>=◌ ◌>>◌
  send_stream_message-Framed message s p = ground (arith, p)

  close_stream_send-Framed : Keeps Framed close_stream_send
  unfolding close_stream_send
  close_stream_send-Framed s p = p

  publish-Framed :
      (own : Option ℕ) (a : ActiveStream)
      → own ≡ start.call.channel_shared
      → Keeps Framed (modify_world (published env own a))
  unfolding published
  publish-Framed own a e = moved-Framed _ λ w b.
      write_states-Beside _ env.later_writes start.world _ (λ j idle. idle.3)
        (publish-Beside _ own a start.world _ (λ j idle q. idle.0 (sym e ∙ q))
          (write_states-Beside _ env.read_writes start.world w (λ j idle. idle.2) b))

  read_active-Framed :
      (batch : BatchOps) (call : Call) (a : Option ActiveStream)
      → call.channel_shared ≡ start.call.channel_shared
      → Keeps Framed (on_active (read_active env batch call) a)
  read_active-Framed batch call none e s p = p
  read_active-Framed batch call (some a) e s p =
      Keeps-then Framed _ _
        (Keeps-then Framed _ _
          (publish-Framed call.channel_shared (read_stream env batch call.deadline_usec a).1 e)
          (λ s p. p))
        (λ s p. p) s p

  build_stream_result-Framed : (batch : BatchOps) → Keeps Framed (build_stream_result env batch)
  unfolding build_stream_result
  build_stream_result-Framed batch =
      Keeps-bind Framed (lift_grpc env.runtime) _ (λ s p. p)
        λ rt.
          Keeps-read Framed (λ c. c) _
            λ s p. read_active-Framed batch s.call s.call.stream_state p.0 s p

  Framed-Kept : Kept env Framed
  Framed-Kept = record {
    active = record {
      noted = λ md message send_closed initial_metadata_sent finished s p. p;
      sends = send_stream_message-Framed;
      closes = close_stream_send-Framed;
      reads = build_stream_result-Framed;
    };
    opens = start_stream-Framed;
    calls = execute_call-Framed;
  }

module _ ⦃host : Host⦄ ⦃tonic : Tonic⦄ where
  pub start_batch-Framed :
      (env : Environment) (ops : Table) (s : CallState) → Framed env s (start_batch env ops s).1
  start_batch-Framed env ops s =
      start_batch-Keeps env (Framed env s) (Framed-Kept env s) ops s
        (refl, refl, refl, refl, (refl, refl, refl, λ j idle. refl))

  pub start_batch-Grows :
      (env : Environment) (ops : Table) (s : CallState)
      → Grows s.world (start_batch env ops s).1.world
  start_batch-Grows env ops s =
      let framed = (start_batch-Framed env ops s).4 in Grows-same framed.0 framed.1 framed.2

  -- Whatever a batch of a call without a plugin does, and whether it returns or throws, it leaves alone
  -- what other objects of the thread see: the closed flags, the registry, the endpoints, and the state
  -- of every transport but the call's own and those that other tasks write to while the batch drives
  -- the runtime; and the call keeps its channel, its deadline, and whether it was cancelled.
  pub batch_leaves_others :
      (env : Environment) (ops : Table) (s : CallState)
      → s.call.call_plugin ≡ none
      → Framed env s (start_batch env ops s).1
  batch_leaves_others env ops s no_plugin = start_batch-Framed env ops s
