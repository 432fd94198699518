-- ===== src/Channel/Closing.antt =====
-- What closing a channel object does, and what it leaves alone.
use grpc_php_rs.Common.{
  ℕ, ◌≡◌, ◌≢◌, refl, true, none, some, get_elem?, get_elem?-set_self, get_elem?-set_ne, length, ◌<◌,
}
use grpc_php_rs.Host.{Host}
use grpc_php_rs.Error.{GrpcError, Result, err, runtime_exception}
use grpc_php_rs.Channel.{Channel, World}
use grpc_php_rs.Channel.Connectivity.{get_target, get_connectivity_state, close}

-- After `close` the object throws RuntimeException from `getTarget` and, without an argument, from
-- `getConnectivityState`; its own flag is set, every other flag is as it was, and the transports and
-- the registry are untouched, so others that share the transport go on.
pub close_exact :
    ⦃host : Host⦄ (ch : Channel) (w : World) (runtime : Result GrpcError ℕ) (pumped : World → World)
    (j : ℕ)
    → ch.closed_flag < length w.flags
    → ch.closed_flag ≢ j
    → let ch' = (close ch w).0 in
      let w' = (close ch w).1 in
      (get_target ch' ≡ err (runtime_exception "getTarget error.Channel is already closed."))
      × ((get_connectivity_state none ch' runtime pumped w').0
          ≡ err (runtime_exception "getConnectivityState error.Channel is already closed."))
      × (get_elem? w'.flags ch.closed_flag ≡ some true)
      × (get_elem? w'.flags j ≡ get_elem? w.flags j)
      × (w'.shared ≡ w.shared)
      × (w'.registry ≡ w.registry)
unfolding close get_target get_connectivity_state
close_exact ch w runtime pumped j h ne = (
  refl,
  refl,
  get_elem?-set_self w.flags ch.closed_flag true h,
  get_elem?-set_ne w.flags ch.closed_flag j true ne,
  refl,
  refl,
)
