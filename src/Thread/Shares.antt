-- ===== src/Thread/Shares.antt =====
-- What a persistent transport means for the channels that are made later.
use grpc_php_rs.Channel
use grpc_php_rs.Common.{ℕ, ◌≡◌, ◌∙◌, sym, String, [], ◌∷◌, ◌++◌, Option, some, get_elem?}
use grpc_php_rs.Host.{Host, Zval, Table}
use grpc_php_rs.Error.{GrpcError, Result, ok}
use grpc_php_rs.Metadata.Map.{Tonic}
use grpc_php_rs.Credentials.{ChannelCredentials}
use grpc_php_rs.Channel.Endpoint.{Transport, EndpointConfig}
use grpc_php_rs.Channel.Grows.{endpoints}
use grpc_php_rs.Channel.Rearranged.{Rearranged, read_config-Rearranged}
use grpc_php_rs.Channel.Reuse.{transport_of, construct-registers, construct_found}
use grpc_php_rs.Channel.{Config, World, read_config}
use grpc_php_rs.Thread.Closed.{Reach-Grows}
use grpc_php_rs.Thread.{Thread, Reach}

module _ ⦃host : Host⦄ ⦃tonic : Tonic⦄ (extract : Zval → Option ChannelCredentials)
    (transport : Transport) where
  -- A channel that may be persisted determines the transport of every later channel with the same
  -- target and the same arguments, in whatever order they are written: whatever operations come between, closing the first channel and failed
  -- calls on it included, the later one gets the same transport, makes no other, and finds it built
  -- from the same endpoint as before.
  pub reuses_forever :
      (t : Thread) (runtime runtime' : Result GrpcError ℕ) (target : String) (args args' : Table)
      (u : Thread) {c : Config} {key : String} {ch : Channel.Channel} {i : ℕ}
      {endpoint : EndpointConfig} {w : World}
      → read_config extract target args ≡ ok c
      → c.persist_key ≡ some key
      → Channel.construct extract transport runtime target args t.world ≡ (ok ch, w)
      → transport_of (ok ch) ≡ some i
      → get_elem? (endpoints w) i ≡ some endpoint
      → Rearranged args args'
      → Reach extract transport (record t { world = w; channels = t.channels ++ ch ∷ [] }) u
      → let made = Channel.construct extract transport runtime' target args' u.world in
        (transport_of made.0 ≡ transport_of (ok ch))
        × (made.1.shared ≡ u.world.shared)
        × (get_elem? (endpoints u.world) i ≡ some endpoint)
  reuses_forever t runtime runtime' target args args' u {key = key} {i = i} {endpoint = endpoint} p
        q e has built order reach =
      let grows = Reach-Grows extract transport reach in
      let found =
        construct_found extract transport runtime' target args' u.world
          (read_config-Rearranged extract target order p) q
          (grows.stays_registered key i
            (construct-registers extract transport runtime target args t.world p q e has)) in
      (found.0 ∙ sym has, found.1, grows.stays_built i endpoint built)
