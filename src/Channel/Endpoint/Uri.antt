-- ===== src/Channel/Endpoint/Uri.antt =====
-- The URI of a built endpoint, whatever the arguments say.
use grpc_php_rs.Common.{
  ℕ, ◌≡◌, ◌∙◌, refl, String, [], Option, none, some, and_then, Option-cases, ℤ, arith,
}
use grpc_php_rs.Host.{Host, Table}
use grpc_php_rs.Error.{ok, invalid_uri}
use grpc_php_rs.Error.Ensures.{bind_returned}
use grpc_php_rs.Credentials.{TlsConfig}
use grpc_php_rs.Channel.Endpoint.{
  Setting, http2_keep_alive_interval, keep_alive_timeout, EndpointConfig, Transport, add_positive,
  as_u32, add_frame_size, add_windows, add_adaptive, refuse, tune, override_name, uri_target,
  add_user_agent, add_tls, build, long_arg, string_arg,
}

-- No setting changes the URI.
add_positive-uri :
    (n : Option ℤ) (make : ℕ → Setting) (e : EndpointConfig) → (add_positive n make e).uri ≡ e.uri
add_positive-uri none make e = refl
add_positive-uri (some n) make e = ground arith

add_frame_size-uri : (n : Option ℕ) (e : EndpointConfig) → (add_frame_size n e).uri ≡ e.uri
add_frame_size-uri none e = refl
add_frame_size-uri (some n) e = ground arith

add_windows-uri : (n : Option ℕ) (e : EndpointConfig) → (add_windows n e).uri ≡ e.uri
add_windows-uri none e = refl
add_windows-uri (some n) e = ground arith

add_adaptive-uri : (n : Option ℤ) (e : EndpointConfig) → (add_adaptive n e).uri ≡ e.uri
add_adaptive-uri none e = refl
add_adaptive-uri (some n) e = refl

module _ ⦃host : Host⦄ where
  tune-uri : (args : Table) (e : EndpointConfig) → (tune args e).uri ≡ e.uri
  unfolding tune
  tune-uri args e =
      add_adaptive-uri (long_arg "grpc.http2.bdp_probe" args) _
      ∙ (add_windows-uri (and_then (long_arg "grpc.http2.lookahead_bytes" args) as_u32) _
          ∙ (add_frame_size-uri (and_then (long_arg "grpc.http2.max_frame_size" args) as_u32) _
              ∙ (add_positive-uri (long_arg "grpc.keepalive_timeout_ms" args) keep_alive_timeout _
                  ∙ add_positive-uri (long_arg "grpc.keepalive_time_ms" args)
                      http2_keep_alive_interval e)))

  pub build_uri :
      (t : Transport) (args : Table) (target : String) (tls : Option TlsConfig) {e : EndpointConfig}
      → build t args target tls ≡ ok e
      → e.uri ≡ uri_target target tls
  unfolding build add_user_agent add_tls
  build_uri t args target tls {e} h =
      let uri = uri_target target tls in
      let start : EndpointConfig = record { uri = uri; settings = [] } in
      let (e0, h0, h1) = bind_returned (refuse invalid_uri (t.uri_error uri) start) _ h in
      let ua = string_arg "grpc.primary_user_agent" args in
      let (e1, h2, h3) = bind_returned (add_user_agent t ua (tune args e0)) _ h1 in
      let named = override_name (string_arg "grpc.ssl_target_name_override" args) tls in
      let (e2, h4, h5) = bind_returned (add_tls t named e1) _ h3 in
      let same0 : e0.uri ≡ uri = ground (arith, Option-cases (t.uri_error uri)) in
      ground (arith, tune-uri args e0, same0)
