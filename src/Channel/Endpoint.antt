-- ===== src/Channel/Endpoint.antt =====
-- src/channel.rs: the tonic endpoint that `__construct` builds from the channel arguments. An
-- endpoint is its URI with the builder calls made on it, the latest first.
pub mod Ranges
pub mod Uri
use Prim.Native.Nat.{max}
use text.Mathlib.Text.{find?}
use grpc_php_rs.Common.{
  ℕ, ◌*◌, ◌^◌, Bool, not, ◌&&◌, String, List, [], ◌∷◌, Option, none, some, concat, is_some,
  and_then, ltb, leb, ltb_ℤ, eqb_ℤ, ℤ, pos, pos_part, if◌then◌else◌,
}
use grpc_php_rs.Host.{Host, Table, as_long, as_string, get}
use grpc_php_rs.Error.{
  GrpcError, transport, invalid_arg, invalid_uri, PhpResult, ok, err, from, ◌>>=◌,
}
use grpc_php_rs.Credentials.{TlsConfig, domain_name}

pub data Setting : Type 0 where
  http2_keep_alive_interval : ℕ → Setting
  keep_alive_timeout : ℕ → Setting
  max_frame_size : ℕ → Setting
  initial_stream_window_size : ℕ → Setting
  initial_connection_window_size : ℕ → Setting
  http2_adaptive_window : Bool → Setting
  user_agent : String → Setting
  tls_config : TlsConfig → Setting
  connect_timeout : ℕ → Setting

pub record EndpointConfig : Type 0 where
  pub uri : String
  pub settings : List Setting

-- The builder calls of tonic that can fail, each with the error's text.
pub record Transport : Type 0 where
  pub uri_error : String → Option String
  pub user_agent_error : String → Option String
  pub tls_error : TlsConfig → Option String

-- tonic needs a scheme.
unfoldable pub uri_target : String → Option TlsConfig → String
uri_target target tls =
    if is_some (find? target "://")
    then target
    else if is_some tls
    then concat "https://" target
    else concat "http://" target

abbrev apply : Setting → EndpointConfig → EndpointConfig
apply s e = record e { settings = s ∷ e.settings }

abbrev add_positive : Option ℤ → (ℕ → Setting) → EndpointConfig → EndpointConfig
add_positive none make e = e
add_positive (some n) make e = if ltb_ℤ (pos 0) n then apply (make (pos_part n)) e else e

-- `u32::try_from`
abbrev as_u32 : ℤ → Option ℕ
as_u32 (pos n) = if ltb n (2 ^ 32) then some n else none
as_u32 (ℤ.negsuc n) = none

abbrev add_frame_size : Option ℕ → EndpointConfig → EndpointConfig
add_frame_size none e = e
add_frame_size (some n) e =
    if leb 16_384 n && leb n 16_777_215 then apply (max_frame_size n) e else e

-- The connection's window is kept at least as large as the stream's.
abbrev add_windows : Option ℕ → EndpointConfig → EndpointConfig
add_windows none e = e
add_windows (some n) e =
    if ltb 0 n
    then apply (initial_connection_window_size (max n (5 * 1024 * 1024)))
        (apply (initial_stream_window_size n) e)
    else e

abbrev add_adaptive : Option ℤ → EndpointConfig → EndpointConfig
add_adaptive none e = e
add_adaptive (some n) e = apply (http2_adaptive_window (not (eqb_ℤ n (pos 0)))) e

abbrev refuse {ℓ} : {A : Type ℓ} → (String → GrpcError) → Option String → A → PhpResult A
refuse kind none a = ok a
refuse kind (some e) a = err (from (kind e))

module _ ⦃host : Host⦄ where
  abbrev long_arg : String → Table → Option ℤ
  long_arg name args = and_then (get name args) as_long

  abbrev string_arg : String → Table → Option String
  string_arg name args = and_then (get name args) as_string

  -- The settings from the keepalive arguments to the adaptive window.
  unfoldable pub tune : Table → EndpointConfig → EndpointConfig
  tune args e = add_adaptive (long_arg "grpc.http2.bdp_probe" args) (
      add_windows (and_then (long_arg "grpc.http2.lookahead_bytes" args) as_u32) (
        add_frame_size (and_then (long_arg "grpc.http2.max_frame_size" args) as_u32) (
          add_positive (long_arg "grpc.keepalive_timeout_ms" args) keep_alive_timeout
            (add_positive (long_arg "grpc.keepalive_time_ms" args) http2_keep_alive_interval e))))

  -- The name override counts only with TLS.
  unfoldable pub override_name : Option String → Option TlsConfig → Option TlsConfig
  override_name (some name) (some tls) = some (domain_name name tls)
  override_name _ tls = tls

  unfoldable pub add_user_agent :
      Transport → Option String → EndpointConfig → PhpResult EndpointConfig
  add_user_agent t none e = ok e
  add_user_agent t (some ua) e =
      refuse invalid_arg (t.user_agent_error ua) (apply (user_agent ua) e)

  unfoldable pub add_tls : Transport → Option TlsConfig → EndpointConfig → PhpResult EndpointConfig
  add_tls t none e = ok e
  add_tls t (some tls) e = refuse transport (t.tls_error tls) (apply (tls_config tls) e)

  unfoldable pub build : Transport → Table → String → Option TlsConfig → PhpResult EndpointConfig
  unfolding uri_target tune override_name add_user_agent add_tls
  build t args target tls =
      let uri = uri_target target tls in
      refuse invalid_uri (t.uri_error uri) (record { uri = uri; settings = [] }) >>= λ e.
      add_user_agent t (string_arg "grpc.primary_user_agent" args) (tune args e) >>= λ e'.
      add_tls t (override_name (string_arg "grpc.ssl_target_name_override" args) tls) e' >>= λ e''.
      ok (apply (connect_timeout 20) e'')
