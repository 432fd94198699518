-- ===== src/Channel/Effects.antt =====
-- What each operation on a channel does to the flags and the registry.
use grpc_php_rs.Common.{
  ◌≡◌, refl, ℕ, ℤ, Bool, false, true, set, [], ◌∷◌, ◌++◌, String, Option, none, is_some, length,
  arith,
}
use grpc_php_rs.Host.{Host, Zval, Table}
use grpc_php_rs.Error.{GrpcError, Result, ok}
use grpc_php_rs.Credentials.{ChannelCredentials}
use grpc_php_rs.Channel.Endpoint.{Transport}
use grpc_php_rs.Channel.Grows.{Grows, Grows-refl, set_state-Grows, get_connectivity_state-Grows}
use grpc_php_rs.Channel.{World, Channel, construct, connect, open_channel, register}
use grpc_php_rs.Channel.Connectivity.{
  set_state, finish_connect, get_connectivity_state, opened, check_bool, close,
}

-- Flags and registry as they were, and the transports still there.
abbrev pub Unmoved : World → World → Type 0
Unmoved w w' = (w'.flags ≡ w.flags) × (w'.registry ≡ w.registry) × Grows w w'

set_state-Unmoved : (i : ℕ) (s : ℤ) (w : World) → Unmoved w (set_state i s w)
unfolding set_state
set_state-Unmoved i s w = (ground arith, ground arith, set_state-Grows i s w)

pub finish_connect-Unmoved :
    (i : ℕ) (ready : Bool) (w : World) → Unmoved w (finish_connect i ready w)
unfolding finish_connect
finish_connect-Unmoved i ready w = set_state-Unmoved i _ w

-- The object closes, and its flag is raised.
pub close_effect :
    (ch : Channel) (w : World)
    → ((close ch w).0.closed_flag ≡ ch.closed_flag)
      × ((close ch w).0.inner ≡ none)
      × ((close ch w).1.flags ≡ set w.flags ch.closed_flag true)
      × ((close ch w).1.registry ≡ w.registry)
unfolding close
close_effect ch w = (refl, refl, refl, refl)

module _ ⦃host : Host⦄ where
  pub asks-Unmoved :
      (try_to_connect : Option Zval) (ch : Channel) (runtime : Result GrpcError ℕ) (w : World)
      → Unmoved w (get_connectivity_state try_to_connect ch runtime (λ v. v) w).1
  unfolding get_connectivity_state opened check_bool set_state
  asks-Unmoved try_to_connect ch runtime w = (
    ground arith,
    ground arith,
    get_connectivity_state-Grows try_to_connect ch runtime (λ v. v) w (Grows-refl w),
  )

module _ ⦃host : Host⦄ (extract : Zval → Option ChannelCredentials) (transport : Transport) where
  -- A new object is open, and has the next flag.
  pub constructed_channel :
      (runtime : Result GrpcError ℕ) (target : String) (args : Table) (w : World) {w' : World}
      {ch : Channel}
      → construct extract transport runtime target args w ≡ (ok ch, w')
      → (ch.closed_flag ≡ length w.flags)
        × (w'.flags ≡ w.flags ++ false ∷ [])
        × (is_some ch.inner ≡ true)
  unfolding construct connect open_channel register
  constructed_channel runtime target args w e = (ground arith, ground arith, ground arith)
