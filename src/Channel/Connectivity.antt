-- ===== src/Channel/Connectivity.antt =====
-- src/channel.rs: the state of a transport, and the methods of a channel object that is there already.
use grpc_php_rs.Common.{
  List, [], ◌∷◌, ℕ, Bool, true, false, ◌&&◌, String, Option, none, some, is_some, get_elem?, set,
  eqb_ℤ, and_then, unwrap_or, ℤ, if◌then◌else◌,
}
use grpc_php_rs.Host.{Host, Zval, as_bool}
use grpc_php_rs.Error.{
  GrpcError, PhpResult, Result, ok, err, ok_or, map_err, from, invalid_argument, runtime_exception,
  ◌>>=◌,
}
use grpc_php_rs.Channel.{
  World, Channel, ChannelInner, channel_idle, channel_connecting, channel_ready,
  channel_transient_failure,
}

abbrev pub state_of : World → ℕ → ℤ
state_of w i = elim (get_elem? w.shared i) [ some sh ↦ sh.state | none ↦ channel_idle ]

-- The state of one transport; the others keep theirs.
unfoldable pub set_state : ℕ → ℤ → World → World
set_state i s w = elim (get_elem? w.shared i) [
  | some sh ↦ record w { shared = set w.shared i (record sh { state = s }) }
  | none ↦ w
]

-- What tasks write to the states of transports, in order.
unfoldable pub write_states : List (ℕ × ℤ) → World → World
unfolding set_state
write_states [] w = w
write_states ((i, state) ∷ rest) w = write_states rest (set_state i state w)

-- What the spawned attempt does when the transport is ready, or fails.
unfoldable pub finish_connect : ℕ → Bool → World → World
unfolding set_state
finish_connect i ready w =
    set_state i (if ready then channel_ready else channel_transient_failure) w

module _ ⦃host : Host⦄ where
  -- A use of a closed channel throws.
  unfoldable pub opened : String → Channel → PhpResult ChannelInner
  opened message ch = ok_or ch.inner (runtime_exception message)

  unfoldable pub get_target : Channel → PhpResult String
  unfolding opened
  get_target ch =
      opened "getTarget error.Channel is already closed." ch >>= λ inner. ok inner.target

  unfoldable pub check_bool : Option Zval → PhpResult (Unit {0})
  check_bool none = ok tt
  check_bool (some zv) =
      if is_some (as_bool zv)
      then ok tt
      else err (invalid_argument "getConnectivityState expects a bool")

  -- `getConnectivityState`: the state, and whether a connection attempt was spawned. `pumped` is the
  -- world after the runtime was pumped: what the tasks already spawned did to it.
  unfoldable pub get_connectivity_state :
      Option Zval
      → Channel
      → Result GrpcError ℕ
      → (World → World)
      → World
      → PhpResult (ℤ × Bool) × World
  unfolding opened check_bool set_state
  get_connectivity_state try_to_connect ch runtime pumped w =
      elim (check_bool try_to_connect >>= λ u.
      opened "getConnectivityState error.Channel is already closed." ch >>= λ inner.
      map_err from runtime >>= λ rt. ok inner) [
        | err e ↦ (err e, w)
        | ok inner ↦
            let w' = pumped w in
            let current = state_of w' inner.shared in
            if unwrap_or (and_then try_to_connect as_bool) false && eqb_ℤ current channel_idle
            then (ok (current, true), set_state inner.shared channel_connecting w')
            else (ok (current, false), w')
      ]

-- `close`: the object loses its transport, and its flag tells its calls.
unfoldable pub close : Channel → World → Channel × World
close ch w = (record ch { inner = none }, record w { flags = set w.flags ch.closed_flag true })
