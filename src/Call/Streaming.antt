-- ===== src/Call/Streaming.antt =====
-- src/call.rs: the operations on a call's stream: opening it, sending to it, and reading from it.
pub mod Sending
pub mod Reading
pub mod Statuses
pub mod Inbox
pub mod Silent
use grpc_php_rs.Common.{
  and_then, ℕ, suc, Bool, true, false, not, ◌||◌, List, [], ◌∷◌, ◌++◌, Option, none, some, is_some,
  unwrap_or, ℤ, if◌then◌else◌,
}
use grpc_php_rs.Host.{Bytes}
use grpc_php_rs.Error.{err, default}
use grpc_php_rs.Metadata.Map.{Tonic}
use grpc_php_rs.Metadata.{metadata_to_php}
use grpc_php_rs.Deadline.{deadline_exceeded_trailers, StreamTrailers}
use grpc_php_rs.Channel.{World}
use grpc_php_rs.Channel.Connectivity.{write_states, set_state}
use grpc_php_rs.Stream.{
  Item, end_of_stream, failed, starting, done, Remote, ActiveStream, status_trailers, advance,
}
use grpc_php_rs.Stream.Reads.{receive, await_meta, drain}
use grpc_php_rs.Stream.Coherence.{work}
use grpc_php_rs.Call.State.{
  Call, Environment, Action, lift, lift_grpc, gets, modify, modify_world, pure, ◌>>=◌, ◌>>◌,
}
use grpc_php_rs.Call.Batch.{BatchOps}
use grpc_php_rs.Call.Result.{Property, ResultObject, php_metadata}

-- No task is spawned, and the trailers are there already.
unfoldable pub expired_stream_state : ActiveStream
unfolding deadline_exceeded_trailers
expired_stream_state = record {
  msg_tx = none;
  task = done;
  buffer = [];
  initial_metadata = none;
  meta_rx = false;
  meta_sent = none;
  cached_trailers = some deadline_exceeded_trailers;
  trailers_rx = false;
  trailers_sent = none;
  connectivity = none;
}

-- A stream whose task has just been spawned.
unfoldable pub spawned : Option (List Bytes) → Remote → ActiveStream
spawned msg_tx remote = record {
  msg_tx = msg_tx;
  task = starting remote;
  buffer = [];
  initial_metadata = none;
  meta_rx = true;
  meta_sent = none;
  cached_trailers = none;
  trailers_rx = true;
  trailers_sent = none;
  connectivity = none;
}

pub terminated : StreamTrailers
terminated = record { code = 2; message = "stream task terminated unexpectedly"; metadata = [] }

consumed : StreamTrailers
consumed = record { code = 2; message = "stream already consumed"; metadata = [] }

module _ ⦃tonic : Tonic⦄ where
  -- The initial metadata are awaited once, and given out once.
  pub resolve_meta : ℤ → ActiveStream → ActiveStream
  resolve_meta deadline_usec s =
      if is_some s.initial_metadata || not s.meta_rx
      then s
      else (let (md, s') = await_meta deadline_usec s in
          record s' { meta_rx = false; initial_metadata = md })

  pub read_metadata : Bool → ℤ → ActiveStream → ResultObject × ActiveStream
  unfolding resolve_meta
  read_metadata false deadline_usec s = ([], s)
  read_metadata true deadline_usec s =
      let s' = resolve_meta deadline_usec s in
      (
        Property.metadata (php_metadata s'.initial_metadata) ∷ [],
        record s' { initial_metadata = none },
      )

  -- What a received item is to PHP; an error becomes the status of the call.
  pub show_item : ℤ → ℤ → Option Item × ActiveStream → ResultObject × ActiveStream
  show_item deadline_usec now (some (Item.message bytes), s) =
      (Property.message (some bytes) ∷ [], s)
  show_item deadline_usec now (some end_of_stream, s) = (Property.message none ∷ [], s)
  show_item deadline_usec now (none, s) = (Property.message none ∷ [], s)
  show_item deadline_usec now (some (failed status), s) = (
    Property.message none ∷ [],
    record s { cached_trailers = some (status_trailers status deadline_usec now) },
  )

  pub read_message : Bool → ℤ → ℤ → ActiveStream → ResultObject × ActiveStream
  unfolding show_item
  read_message false deadline_usec now s = ([], s)
  read_message true deadline_usec now s =
      if is_some s.cached_trailers
      then (Property.message none ∷ [], s)
      else show_item deadline_usec now (receive deadline_usec s)

  -- The stream once its trailers were waited for: the task has begun and has returned. What is left in
  -- the buffer is dropped.
  abbrev drained : ℤ → ActiveStream → ActiveStream
  drained deadline_usec s = record (advance 1 deadline_usec s) {
    trailers_rx = false;
    task = done;
    buffer = [];
  }

  -- The fuel of the loop is the work that is left, which is enough.
  pub trailers_from :
      Option StreamTrailers
      → Bool
      → List (ℕ × Bool)
      → ℤ
      → ActiveStream
      → StreamTrailers × ActiveStream
  unfolding terminated consumed
  trailers_from (some cached) trailers_rx schedule deadline_usec s =
      (cached, record s { cached_trailers = none })
  trailers_from none true schedule deadline_usec s = (
    unwrap_or (unwrap_or (drain (suc (work s)) schedule deadline_usec s) none) terminated,
    drained deadline_usec s,
  )
  trailers_from none false schedule deadline_usec s = (consumed, s)

  pub take_trailers : List (ℕ × Bool) → ℤ → ActiveStream → StreamTrailers × ActiveStream
  unfolding trailers_from
  take_trailers schedule deadline_usec s =
      trailers_from s.cached_trailers s.trailers_rx schedule deadline_usec s

  pub read_status : Bool → List (ℕ × Bool) → ℤ → ActiveStream → ResultObject × ActiveStream
  unfolding take_trailers
  read_status false schedule deadline_usec s = ([], s)
  read_status true schedule deadline_usec s =
      let (trailers, s') = take_trailers schedule deadline_usec s in
      (Property.status (metadata_to_php trailers.metadata) trailers.code trailers.message ∷ [], s')

abbrev pub on_active : {A : Type 0} → (ActiveStream → Action A) → Option ActiveStream → Action A
on_active f none = lift (err (default "no active stream"))
on_active f (some s) = f s

-- What the task wrote to the connectivity state is the channel's from then on.
unfoldable pub publish : Option ℕ → ActiveStream → World → World
publish none s w = w
publish (some i) s w = elim s.connectivity [ none ↦ w | some state ↦ set_state i state w ]

module _ ⦃tonic : Tonic⦄ (env : Environment) where
  -- The three reads of a batch, in order; the task has run ahead before them.
  unfoldable pub read_stream : BatchOps → ℤ → ActiveStream → ResultObject × ActiveStream
  unfolding read_metadata read_message read_status
  read_stream batch deadline_usec s =
      let (md, s1) =
        read_metadata batch.recv_initial_metadata deadline_usec
          (advance env.ahead deadline_usec s) in
      let (msg, s2) = read_message batch.recv_message deadline_usec env.now_report s1 in
      let (st, s3) = read_status batch.recv_status env.schedule deadline_usec s2 in
      (md ++ (msg ++ st), s3)

  -- What the stream's task and the others write while the call reads.
  unfoldable pub published : Option ℕ → ActiveStream → World → World
  unfolding publish write_states
  published shared s w =
      write_states env.later_writes (publish shared s (write_states env.read_writes w))

  -- What the reads leave, in the call and in the channel; other tasks go on while they wait.
  abbrev store : Option ℕ → ActiveStream → Action (Unit {0})
  store shared s =
      modify_world (published shared s)
      >> modify (λ c. record c { stream_state = some (record s { connectivity = none }) })

  abbrev pub read_active : BatchOps → Call → ActiveStream → Action ResultObject
  read_active batch call s =
      let (result, s') = read_stream batch call.deadline_usec s in
      store call.channel_shared s' >> pure result

  unfoldable pub build_stream_result : BatchOps → Action ResultObject
  unfolding read_stream published
  build_stream_result batch = lift_grpc env.runtime >>= λ rt.
      gets (λ c. c) >>= λ call. on_active (read_active batch call) call.stream_state

abbrev pub drop_sender : ActiveStream → ActiveStream
drop_sender s = record s { msg_tx = none }

unfoldable pub close_stream_send : Action (Unit {0})
close_stream_send =
    modify (λ c. record c { stream_state = and_then c.stream_state (λ s. some (drop_sender s)) })
