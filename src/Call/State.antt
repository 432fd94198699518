-- ===== src/Call/State.antt =====
-- src/call.rs: the state of a call, what its environment does, and the actions on them. An action
-- keeps what it wrote before it threw.
use grpc_php_rs.Common.{ℕ, Bool, String, List, [], ◌∷◌, ◌++◌, Option, ℤ}
use grpc_php_rs.Host.{Bytes, Zval}
use grpc_php_rs.Error.{GrpcError, PhpResult, Result, ok, err, map_err, from}
use grpc_php_rs.Metadata.Map.{MetadataMap}
use grpc_php_rs.Metadata.{Pairs}
use grpc_php_rs.Credentials.{Plugin}
use grpc_php_rs.Channel.{World}
use grpc_php_rs.Deadline.{Status}
use grpc_php_rs.Runtime.{pump}
use grpc_php_rs.Channel.Connectivity.{write_states}
use grpc_php_rs.Stream.{Remote, ActiveStream}

-- A tonic request as the extension builds it; the message is none where a stream of messages follows.
pub record Request : Type 0 where
  pub path : String
  pub metadata : MetadataMap
  pub message : Option Bytes
  pub timeout : Option ℕ

-- The limits that tonic's client is made with.
pub record Client : Type 0 where
  pub max_decoding : Option ℕ
  pub max_encoding : Option ℕ

-- A request that was built and handed to tonic's client, whether or not the connection became ready:
-- kept to state what a call sends, read by no operation.
pub data Event : Type 0 where
  dispatched : Client → Request → Event

-- `GrpcCall`. The transport is the index of the channel's shared transport, the cancellation token is
-- whether it was cancelled, and the closed flag is an index into the world's flags.
pub record Call : Type 0 where
  pub method : String
  pub target : String
  pub deadline_usec : ℤ
  pub host_override : Option String
  pub call_plugin : Option Plugin
  pub cancelled : Bool
  pub max_decoding : Option ℕ
  pub max_encoding : Option ℕ
  pub pending_metadata : Pairs
  pub pending_message : Option Bytes
  pub send_closed : Bool
  pub initial_metadata_sent : Bool
  pub finished : Bool
  pub channel_closed : ℕ
  pub channel_shared : Option ℕ
  pub stream_state : Option ActiveStream
  pub events : List Event

abbrev pub client : Call → Client
client c = record { max_decoding = c.max_decoding; max_encoding = c.max_encoding }

-- What calling a plugin gives.
pub data Reply : Type 0 where
  returned : Zval → Reply
  threw : String → String → Reply
  broke : String → Reply

-- How a unary call goes, once its path is accepted.
pub data Unary : Type 0 where
  not_ready : String → Unary
  ready_elapsed : Unary
  deadline_fired : Unary
  responded : MetadataMap → Bytes → Unary
  refused : Status → ℤ → Unary
  cancelled : Unary

-- What the environment does while one batch runs: the runtime of the thread, the clock at the check of
-- the deadline, at the request and at the report of a status, tonic's verdict on the path, the plugins,
-- the course of the call, whether tonic still takes messages, and the scheduling of the stream's task.
-- The last three are what the other tasks of the thread write to the states of transports while the
-- runtime is driven: by `pump` (and, in a unary call, while it blocks), and while the call reads from
-- its stream, before and after what its own task writes.
pub record Environment : Type 0 where
  pub runtime : Result GrpcError ℕ
  pub now_dispatch : ℤ
  pub now_request : ℤ
  pub now_report : ℤ
  pub path_error : String → Option String
  pub reply : Zval → String → Reply
  pub unary : Unary
  pub remote : Remote
  pub takes_messages : Bool
  pub ahead : ℕ
  pub schedule : List (ℕ × Bool)
  pub pump_writes : List (ℕ × ℤ)
  pub read_writes : List (ℕ × ℤ)
  pub later_writes : List (ℕ × ℤ)

pub record CallState : Type 0 where
  pub call : Call
  pub world : World

abbrev pub Action : Type 0 → Type 0
Action A = CallState → PhpResult A × CallState

module _ {A : Type 0} where
  abbrev pub pure : A → Action A
  pure a s = (ok a, s)

  abbrev pub lift : PhpResult A → Action A
  lift r s = (r, s)

-- `…map_err(PhpException::from)?`
abbrev pub lift_grpc : {A : Type 0} → Result GrpcError A → Action A
lift_grpc r s = (map_err from r, s)

abbrev pub gets : {A : Type 0} → (Call → A) → Action A
gets f s = (ok (f s.call), s)

abbrev pub modify : (Call → Call) → Action (Unit {0})
modify f s = (ok tt, record s { call = f s.call })

abbrev pub modify_world : (World → World) → Action (Unit {0})
modify_world f s = (ok tt, record s { world = f s.world })

abbrev pub continue : {A B : Type 0} → PhpResult A → (A → Action B) → Action B
continue (ok a) f s = f a s
continue (err e) f s = (err e, s)

infixl 5 ◌>>=◌ ◌>>◌
unfoldable pub ◌>>=◌ : {A B : Type 0} → Action A → (A → Action B) → Action B
◌>>=◌ m f s = let (r, s') = m s in continue r f s'

unfoldable pub ◌>>◌ : {A B : Type 0} → Action A → Action B → Action B
m >> n = m >>= λ _. n

-- `pump`: it drives the runtime, on which other tasks go on.
abbrev pub drive : Environment → Action (Unit {0})
drive env s = elim (pump env.runtime) [
  | ok u ↦ (ok tt, record s { world = write_states env.pump_writes s.world })
  | err e ↦ (err (from e), s)
]

-- Records an event.
abbrev pub emit : Event → Action (Unit {0})
emit e = modify (λ c. record c { events = c.events ++ e ∷ [] })
