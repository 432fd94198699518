-- ===== src/Thread.antt =====
-- src/channel.rs and src/call.rs together: the channel and call objects of one PHP thread, and the
-- operations that PHP runs on them in any order. A constructor that throws makes no object and, like
-- every refused operation, is no step.

pub mod Objects
pub mod Steps
pub mod Closed
pub mod Shares
mod Tests
use grpc_php_rs.Channel
use grpc_php_rs.Call
use grpc_php_rs.Common.{ℕ, Bool, String, List, [], ◌∷◌, ◌++◌, Option, some, get_elem?, set, ◌≡◌}
use grpc_php_rs.Host.{Host, Zval, Table}
use grpc_php_rs.Error.{GrpcError, Result, ok}
use grpc_php_rs.Metadata.Map.{Tonic}
use grpc_php_rs.Timeval.{Timeval, Reading}
use grpc_php_rs.Credentials.{ChannelCredentials, CallCredentials}
use grpc_php_rs.Channel.Endpoint.{Transport}
use grpc_php_rs.Channel.{World}
use grpc_php_rs.Channel.Connectivity.{close, finish_connect, get_connectivity_state}
use grpc_php_rs.Call.State.{CallState, Environment}
use grpc_php_rs.Call.{start_batch, cancel, set_credentials}

pub record Thread : Type 0 where
  pub world : World
  pub channels : List Channel.Channel
  pub calls : List Call.State.Call

abbrev pub no_objects : Thread
no_objects = record {
  world = record { shared = []; registry = []; flags = [] };
  channels = [];
  calls = [];
}

-- The thread after a batch on its call `i`.
abbrev pub after_batch : Thread → ℕ → CallState → Thread
after_batch t i s = record { world = s.world; channels = t.channels; calls = set t.calls i s.call }

module _ ⦃host : Host⦄ ⦃tonic : Tonic⦄ (extract : Zval → Option ChannelCredentials)
    (transport : Transport) where
  -- One operation of PHP on one object, or one step of a connection attempt in the background.
  pub data Step (t : Thread) : Thread → Type 0 where
    makes_channel :
        {ch : Channel.Channel} {w : World} (runtime : Result GrpcError ℕ) (target : String)
        (args : Table)
        → Channel.construct extract transport runtime target args t.world ≡ (ok ch, w)
        → Step t (record t { world = w; channels = t.channels ++ ch ∷ [] })
    makes_call :
        {ch : Channel.Channel} {c : Call.State.Call} (i : ℕ) (method : String) (deadline : Timeval)
        (host_override : Option String) (clock : Reading)
        → get_elem? t.channels i ≡ some ch
        → Call.construct ch method deadline host_override clock ≡ ok c
        → Step t (record t { calls = t.calls ++ c ∷ [] })
    runs_batch :
        {c : Call.State.Call} (i : ℕ) (env : Environment) (ops : Table)
        → get_elem? t.calls i ≡ some c
        → Step t (after_batch t i (start_batch env ops (record { call = c; world = t.world })).1)
    cancels :
        {c : Call.State.Call} (i : ℕ)
        → get_elem? t.calls i ≡ some c
        → Step t (record t { calls = set t.calls i (cancel c) })
    sets_credentials :
        {c : Call.State.Call} (i : ℕ) (creds : CallCredentials)
        → get_elem? t.calls i ≡ some c
        → Step t (record t { calls = set t.calls i (set_credentials creds c).1 })
    closes :
        {ch : Channel.Channel} (i : ℕ)
        → get_elem? t.channels i ≡ some ch
        → Step t (record t {
          world = (close ch t.world).1;
          channels = set t.channels i (close ch t.world).0;
        })
    asks :
        {ch : Channel.Channel} (i : ℕ) (try_to_connect : Option Zval) (runtime : Result GrpcError ℕ)
        → get_elem? t.channels i ≡ some ch
        → Step t (record t {
          world = (get_connectivity_state try_to_connect ch runtime (λ w. w) t.world).1;
        })
    settles : (i : ℕ) (ready : Bool) → Step t (record t { world = finish_connect i ready t.world })

  pub data Reach (t : Thread) : Thread → Type 0 where
    here : Reach t t
    next : {u v : Thread} → Reach t u → Step u v → Reach t v
