-- ===== src/Channel/Reuse.antt =====
-- When two channel objects share a transport.
use grpc_php_rs.Common.{
  inr, inl, length-append, Option-cases, ℕ, ◌<◌, ◌≡◌, String, List, [], ◌∷◌, Option, none, some,
  length, All, eq_refl, arith,
}
use grpc_php_rs.Host.{Host, Zval, Table}
use grpc_php_rs.Error.{PhpException, GrpcError, PhpResult, Result, ok, err}
use grpc_php_rs.Credentials.{ChannelCredentials}
use grpc_php_rs.Error.Ensures.{Result-cases}
use grpc_php_rs.Channel.Endpoint.{Transport, EndpointConfig}
use grpc_php_rs.Channel.{
  channel_idle, build_with, Channel, World, Config, find_key, read_config, open_channel, register,
  existing, connect, construct,
}

abbrev pub RegistersIn : ℕ → String × ℕ → Type 0
RegistersIn n (k, i) = i < n

-- The registry names transports that exist.
abbrev pub IsValid : World → Type 0
IsValid w = All (RegistersIn (length w.shared)) w.registry

RegistersIn-mono :
    (m n : ℕ) (r : List (String × ℕ)) → m < n → All (RegistersIn m) r → All (RegistersIn n) r
RegistersIn-mono m n [] h a = tt
RegistersIn-mono m n ((k, i) ∷ r) h a = (omega arith, RegistersIn-mono m n r h a.1)

pub find_key-lt :
    (n : ℕ) (key : String) (r : List (String × ℕ)) (i : ℕ)
    → All (RegistersIn n) r
    → find_key key r ≡ some i
    → i < n
unfolding find_key
find_key-lt n key [] i a e = cc
find_key-lt n key ((k, j) ∷ r) i a e = ground (arith, find_key-lt n key r i a.1)

-- The transport of a channel that `__construct` returned.
abbrev pub transport_of : PhpResult Channel → Option ℕ
transport_of (err e) = none
transport_of (ok ch) = elim ch.inner [ some i ↦ some i.shared | none ↦ none ]

length-register :
    (key : Option String) (e : EndpointConfig) (w : World)
    → length w.shared < length (register key e w).shared
unfolding register
length-register key e w =
    omega (arith, length-append w.shared (record { channel = e; state = channel_idle } ∷ []))

register-IsValid :
    (key : Option String) (e : EndpointConfig) (w : World) → IsValid w → IsValid (register key e w)
unfolding register
register-IsValid none e w v = RegistersIn-mono _ _ w.registry (length-register none e w) v
register-IsValid (some k) e w v =
    (length-register (some k) e w, RegistersIn-mono _ _ w.registry (length-register (some k) e w) v)

-- A valid world, in which the transport of the result exists.
abbrev pub Sound : PhpResult Channel × World → Type 0
Sound made = IsValid made.1 × ((i : ℕ) → transport_of made.0 ≡ some i → i < length made.1.shared)

existing-lt :
    (c : Config) (w : World) (i : ℕ) → IsValid w → existing c w ≡ some i → i < length w.shared
unfolding existing
existing-lt c w i v e = elim (Option-cases c.persist_key) [
  | inl p ↦ ground arith
  | inr (k, p) ↦ find_key-lt (length w.shared) k w.registry i v (ground arith)
]

open_channel-Sound :
    (c : Config) (i : ℕ) (w : World)
    → IsValid w
    → i < length w.shared
    → Sound (ok (open_channel c i w).0, (open_channel c i w).1)
unfolding open_channel
open_channel-Sound c i w v h = (v, λ j e. ground arith)

module _ ⦃host : Host⦄ (extract : Zval → Option ChannelCredentials) (transport : Transport) where
  connect-Sound :
      (runtime : Result GrpcError ℕ) (c : Config) (w : World)
      → IsValid w
      → Sound (connect extract transport runtime c w)
  unfolding connect
  connect-Sound runtime c w v = elim (Option-cases (existing c w)) [
    | inl fresh ↦ elim (Result-cases (build_with extract transport runtime c)) [
      | inr (x, p) ↦ rw (fresh, connect, p) (v, λ i e. cc)
      | inl (endpoint, p) ↦
          rw (fresh, connect, p)
            (open_channel-Sound c (length w.shared) (register c.persist_key endpoint w)
              (register-IsValid c.persist_key endpoint w v)
              (length-register c.persist_key endpoint w))
    ]
    | inr (i, found) ↦ rw (found, connect) (open_channel-Sound c i w v (existing-lt c w i v found))
  ]

  -- `__construct` keeps the registry's keys on transports that exist, and the transport of a channel
  -- that it returns exists.
  pub construct-Sound :
      (runtime : Result GrpcError ℕ) (target : String) (args : Table) (w : World)
      → IsValid w
      → Sound (construct extract transport runtime target args w)
  unfolding construct
  construct-Sound runtime target args w v = elim (Result-cases (read_config extract target args)) [
    | inr (x, p) ↦ rw (p, construct) (v, λ i e. cc)
    | inl (c, p) ↦ rw (p, construct) (connect-Sound runtime c w v)
  ]

  -- A constructor that throws has changed nothing.
  pub construct_failure_unchanged :
      (runtime : Result GrpcError ℕ) (target : String) (args : Table) (w : World) {e : PhpException}
      → (construct extract transport runtime target args w).0 ≡ err e
      → (construct extract transport runtime target args w).1 ≡ w
  unfolding construct connect open_channel
  construct_failure_unchanged runtime target args w h = ground arith

  -- Constructing again with the same target and arguments, where they are to be persisted, gives the
  -- transport of the first channel and makes no other, whatever the runtime says by then.
  pub construct_reuses :
      (runtime runtime' : Result GrpcError ℕ) (target : String) (args : Table) (w : World)
      {c : Config} {key : String} {ch : Channel}
      → read_config extract target args ≡ ok c
      → c.persist_key ≡ some key
      → (construct extract transport runtime target args w).0 ≡ ok ch
      → let w' = (construct extract transport runtime target args w).1 in
        (transport_of (construct extract transport runtime' target args w').0
          ≡ transport_of (ok ch))
        × ((construct extract transport runtime' target args w').1.shared ≡ w'.shared)
  unfolding construct connect open_channel register existing find_key
  construct_reuses runtime runtime' target args w {key = key} p q h = ground (arith, eq_refl key)

  -- The key of a channel that was made is registered, at the channel's transport.
  pub construct-registers :
      (runtime : Result GrpcError ℕ) (target : String) (args : Table) (w : World) {c : Config}
      {key : String} {ch : Channel} {w' : World} {i : ℕ}
      → read_config extract target args ≡ ok c
      → c.persist_key ≡ some key
      → construct extract transport runtime target args w ≡ (ok ch, w')
      → transport_of (ok ch) ≡ some i
      → find_key key w'.registry ≡ some i
  unfolding construct connect open_channel register existing find_key
  construct-registers runtime target args w {key = key} p q h e = ground (arith, eq_refl key)

  -- A key that is registered decides the transport.
  pub construct_found :
      (runtime : Result GrpcError ℕ) (target : String) (args : Table) (w : World) {c : Config}
      {key : String} {i : ℕ}
      → read_config extract target args ≡ ok c
      → c.persist_key ≡ some key
      → find_key key w.registry ≡ some i
      → let made = construct extract transport runtime target args w in
        (transport_of made.0 ≡ some i) × (made.1.shared ≡ w.shared)
  unfolding construct connect open_channel existing
  construct_found runtime target args w p q h = ground arith
