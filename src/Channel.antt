-- ===== src/Channel.antt =====
-- src/channel.rs: channels, the transports that they share, and the per-thread registry of the
-- persistent ones. A transport is an index into the list of those made; a closed flag likewise.
pub mod Connectivity
pub mod Sort
pub mod Args
pub mod Endpoint
pub mod Reuse
pub mod Isolated
pub mod Closing
pub mod Rearranged
pub mod Secure
pub mod Limits
pub mod Grows
pub mod Effects
pub mod Watch
pub mod Sample
mod Tests
use grpc_php_rs.Common.{
  ℕ, Bool, false, not, ◌&&◌, String, List, [], ◌++◌, ◌∷◌, Option, none, some, concat, str_eq,
  is_some, length, and_then, unwrap_or, ℤ, pos, if◌then◌else◌,
}
use grpc_php_rs.Host.{Host, Zval, Table, null, get}
use grpc_php_rs.Error.{
  GrpcError, PhpResult, Result, ok, err, ok_or, map_err, from, invalid_argument, ◌>>=◌,
}
use grpc_php_rs.Error.Decimal.{to_string}
use grpc_php_rs.Credentials.{
  TlsConfig, Plugin, CredentialsInner, ssl, composite, ChannelCredentials,
}
use Sort.{sort}
use Args.{validate, size_limit}
use Endpoint.{EndpointConfig, Transport, build}

abbrev pub channel_idle : ℤ
channel_idle = pos 0

abbrev pub channel_connecting : ℤ
channel_connecting = pos 1

abbrev pub channel_ready : ℤ
channel_ready = pos 2

abbrev pub channel_transient_failure : ℤ
channel_transient_failure = pos 3

pub record SharedChannel : Type 0 where
  pub channel : EndpointConfig
  pub state : ℤ

pub record ChannelInner : Type 0 where
  pub shared : ℕ
  pub target : String
  pub call_plugin : Option Plugin
  pub max_decoding : Option ℕ
  pub max_encoding : Option ℕ

pub record Channel : Type 0 where
  pub inner : Option ChannelInner
  pub closed_flag : ℕ

-- What the objects of one PHP thread share: the transports, the registry by key, the closed flags.
pub record World : Type 0 where
  pub shared : List SharedChannel
  pub registry : List (String × ℕ)
  pub flags : List Bool

-- What `__construct` reads from its arguments before it decides whether to reuse a transport.
pub record Config : Type 0 where
  pub target : String
  pub args : Table
  pub tls : Option TlsConfig
  pub call_plugin : Option Plugin
  pub max_decoding : Option ℕ
  pub max_encoding : Option ℕ
  pub persist_key : Option String

abbrev tls_part : CredentialsInner → TlsConfig
tls_part (ssl tls) = tls
tls_part (composite tls plugin) = tls

abbrev pub plugin_part : CredentialsInner → Option Plugin
plugin_part (ssl tls) = none
plugin_part (composite tls plugin) = some plugin

abbrev join_comma : List String → String
join_comma [] = ""
join_comma (s ∷ []) = s
join_comma (s ∷ t ∷ ss) = concat s (concat "," (join_comma (t ∷ ss)))

pub persist_key : String → ℕ → List String → String
persist_key target creds_id parts =
    concat target
      (concat "|creds=" (concat (to_string (pos creds_id)) (concat "|" (join_comma parts))))

pub find_key : String → List (String × ℕ) → Option ℕ
find_key key [] = none
find_key key ((k, i) ∷ rest) = if str_eq k key then some i else find_key key rest

-- `extract` finds the ChannelCredentials that a PHP value refers to.
module _ ⦃host : Host⦄ (extract : Zval → Option ChannelCredentials) where
  -- `none` for insecure credentials: absent, or null.
  pub read_credentials : Option Zval → PhpResult (Option ChannelCredentials)
  read_credentials none = ok none
  read_credentials (some null) = ok none
  read_credentials (some val) =
      ok_or (extract val) (invalid_argument "credentials must be a ChannelCredentials object")
      >>= λ creds. ok (some creds)

  pub read_config : String → Table → PhpResult Config
  read_config target args = validate false args >>= λ checked.
      read_credentials (get "credentials" args) >>= λ creds.
      let call_plugin = and_then creds (λ c. plugin_part c.inner) in
      ok (record {
        target = target;
        args = args;
        tls = and_then creds (λ c. some (tls_part c.inner));
        call_plugin = call_plugin;
        max_decoding = size_limit (get "grpc.max_receive_message_length" args);
        max_encoding = size_limit (get "grpc.max_send_message_length" args);
        persist_key =
            if not (is_some call_plugin) && not checked.0
            then some (
                persist_key target (unwrap_or (and_then creds (λ c. some c.id)) 0) (sort checked.1))
            else none;
      })

-- A channel object over a transport, with a closed flag of its own.
pub open_channel : Config → ℕ → World → Channel × World
open_channel c shared w = (
  record {
    inner = some (record {
      shared = shared;
      target = c.target;
      call_plugin = c.call_plugin;
      max_decoding = c.max_decoding;
      max_encoding = c.max_encoding;
    });
    closed_flag = length w.flags;
  },
  record w { flags = w.flags ++ false ∷ [] },
)

-- A new transport, registered under the key if there is one; a key that was there gets the new one.
pub register : Option String → EndpointConfig → World → World
register key endpoint w = record w {
  shared = w.shared ++ record { channel = endpoint; state = channel_idle } ∷ [];
  registry = elim key [ none ↦ w.registry | some k ↦ (k, length w.shared) ∷ w.registry ];
}

-- The transport that the key has already; `none` where a new one is to be made.
pub existing : Config → World → Option ℕ
existing c w = and_then c.persist_key λ key. find_key key w.registry

module _ ⦃host : Host⦄ (extract : Zval → Option ChannelCredentials) (transport : Transport) where
  -- The transport that a new one would be, with the runtime that it needs.
  pub build_with : Result GrpcError ℕ → Config → PhpResult EndpointConfig
  build_with runtime c = build transport c.args c.target c.tls >>= λ endpoint.
      map_err from runtime >>= λ rt. ok endpoint

  pub connect : Result GrpcError ℕ → Config → World → PhpResult Channel × World
  connect runtime c w = elim (existing c w) [
    | some shared ↦ let (ch, w') = open_channel c shared w in (ok ch, w')
    | none ↦ elim (build_with runtime c) [
      | err e ↦ (err e, w)
      | ok endpoint ↦
          let (ch, w') = open_channel c (length w.shared) (register c.persist_key endpoint w) in
          (ok ch, w')
    ]
  ]

  -- `Channel::__construct`. The runtime is what `get_runtime` returns on the thread.
  pub construct : Result GrpcError ℕ → String → Table → World → PhpResult Channel × World
  construct runtime target args w = elim (read_config extract target args) [
    | err e ↦ (err e, w)
    | ok c ↦ connect runtime c w
  ]

-- What calls read of a channel object. A tonic channel is the transport whose channel it is.
unfoldable pub get_tonic_channel : Channel → Option ℕ
get_tonic_channel ch = and_then ch.inner (λ i. some i.shared)

unfoldable pub get_shared : Channel → Option ℕ
get_shared ch = and_then ch.inner (λ i. some i.shared)

unfoldable pub get_target_uri : Channel → Option String
get_target_uri ch = and_then ch.inner (λ i. some i.target)

unfoldable pub get_closed_flag : Channel → ℕ
get_closed_flag ch = ch.closed_flag

unfoldable pub get_call_plugin : Channel → Option Plugin
get_call_plugin ch = and_then ch.inner (λ i. i.call_plugin)

unfoldable pub get_max_decoding_message_size : Channel → Option ℕ
get_max_decoding_message_size ch = and_then ch.inner (λ i. i.max_decoding)

unfoldable pub get_max_encoding_message_size : Channel → Option ℕ
get_max_encoding_message_size ch = and_then ch.inner (λ i. i.max_encoding)
