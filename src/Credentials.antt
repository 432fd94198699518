-- ===== src/Credentials.antt =====
-- src/credentials.rs: channel and call credentials. The two statics (the default root certificates
-- and the source of ids) are a state that operations take and return. A tonic `ClientTlsConfig` is
-- the chain of the builder calls that made it.
pub mod Ids
pub mod Roots
pub mod Plugins
mod Tests
use Prim.Native.Nat.{◌%◌}
use grpc_php_rs.Common.{
  ℕ, ◌+◌, ◌^◌, Bool, String, Option, none, some, or_else, is_some, if◌then◌else◌,
}
use grpc_php_rs.Host.{Host, Zval}
use grpc_php_rs.Error.{PhpResult, ok, err, default}

pub data TlsConfig : Type 0 where
  new : TlsConfig
  with_webpki_roots : TlsConfig → TlsConfig
  ca_certificate : String → TlsConfig → TlsConfig
  identity : String → String → TlsConfig → TlsConfig
  domain_name : String → TlsConfig → TlsConfig

-- `Arc<Mutex<Option<Zval>>>`: nothing writes to it after it is made, so sharing it is copying it.
abbrev pub Plugin : Type 0
Plugin = Option Zval

pub data CredentialsInner : Type 0 where
  ssl : TlsConfig → CredentialsInner
  composite : TlsConfig → Plugin → CredentialsInner

pub record ChannelCredentials : Type 0 where
  pub inner : CredentialsInner
  pub id : ℕ

pub record CallCredentials : Type 0 where
  pub plugin : Plugin

-- `DEFAULT_ROOTS_PEM` and `NEXT`.
pub record Statics : Type 0 where
  pub default_roots : Option String
  pub next : ℕ

pub start : Statics
start = record { default_roots = none; next = 1 }

-- `fetch_add` on a u64.
next_credentials_id : Statics → ℕ × Statics
next_credentials_id s = (s.next, record s { next = (s.next + 1) % 2 ^ 64 })

make : CredentialsInner → Statics → ChannelCredentials × Statics
unfolding next_credentials_id
make inner s = let (id, s') = next_credentials_id s in (record { inner = inner; id = id }, s')

with_roots : Option String → TlsConfig → TlsConfig
with_roots none tls = tls
with_roots (some pem) tls = ca_certificate pem tls

with_identity : Option String → Option String → TlsConfig → TlsConfig
with_identity (some cert_chain) (some private_key) tls = identity cert_chain private_key tls
with_identity _ _ tls = tls

pub create_ssl :
    Option String → Option String → Option String → Statics → ChannelCredentials × Statics
unfolding make with_roots with_identity
create_ssl pem_root_certs pem_private_key pem_cert_chain s =
    let roots = or_else pem_root_certs s.default_roots in
    make
      (ssl
        (with_identity pem_cert_chain pem_private_key (with_roots roots (with_webpki_roots new))))
      s

unfoldable create_insecure : Option ChannelCredentials
create_insecure = none

abbrev tls_of : CredentialsInner → TlsConfig
tls_of (ssl tls) = tls
tls_of (composite tls plugin) = tls

pub create_composite : ChannelCredentials → CallCredentials → Statics → ChannelCredentials × Statics
unfolding make
create_composite channel_creds call_creds s =
    make (composite (tls_of channel_creds.inner) call_creds.plugin) s

pub create_default : Statics → ChannelCredentials × Statics
unfolding make with_roots
create_default s = make (ssl (with_roots s.default_roots (with_webpki_roots new))) s

pub set_default_roots_pem : String → Statics → Statics
set_default_roots_pem pem s = record s { default_roots = some pem }

pub is_default_roots_pem_set : Statics → Bool
is_default_roots_pem_set s = is_some s.default_roots

pub invalidate_default_roots_pem : Statics → Statics
invalidate_default_roots_pem s = record s { default_roots = none }

module _ ⦃host : Host⦄ where
  unfoldable create_from_plugin : Zval → PhpResult CallCredentials
  create_from_plugin callback =
      if host.is_callable callback
      then ok (record { plugin = some callback })
      else err (default "createFromPlugin expects a callable")

-- `CallCredentials::createComposite`: the first plugin, or the second where there is no first.
pub create_composite_call : CallCredentials → CallCredentials → CallCredentials
create_composite_call creds1 creds2 = record { plugin = or_else creds1.plugin creds2.plugin }
