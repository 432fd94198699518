-- ===== src/Channel/Endpoint/Ranges.antt =====
-- What the settings of a built endpoint are, whatever the arguments say.
use grpc_php_rs.Common.{
  ℕ, ◌*◌, ◌^◌, ◌<◌, ◌≤◌, ◌≡◌, ◌∙◌, refl, ap, subst, String, List, [], ◌∷◌, Option, none, some,
  is_some, and_then, Option-cases, All, ℤ, pos, arith, inl, inr,
}
use grpc_php_rs.Host.{Host, Table}
use grpc_php_rs.Error.{ok, invalid_uri}
use grpc_php_rs.Error.Ensures.{bind_returned}
use grpc_php_rs.Credentials.{TlsConfig}
use grpc_php_rs.Channel.Endpoint.{
  Setting, http2_keep_alive_interval, keep_alive_timeout, max_frame_size,
  initial_stream_window_size, initial_connection_window_size, http2_adaptive_window, user_agent,
  tls_config, connect_timeout, EndpointConfig, Transport, apply, add_positive, as_u32,
  add_frame_size, add_windows, add_adaptive, refuse, tune, override_name, uri_target,
  add_user_agent, add_tls, build, long_arg, string_arg,
}

-- The ranges that HTTP/2 and the operating system allow.
abbrev pub InRange : Setting → Type 0
InRange (http2_keep_alive_interval n) = 0 < n
InRange (keep_alive_timeout n) = 0 < n
InRange (max_frame_size n) = (16_384 ≤ n) × (n ≤ 16_777_215)
InRange (initial_stream_window_size n) = (0 < n) × (n < 2 ^ 32)
InRange (initial_connection_window_size n) = (5 * 1024 * 1024 ≤ n) × (n < 2 ^ 32)
InRange (http2_adaptive_window b) = Unit
InRange (user_agent ua) = Unit
InRange (tls_config tls) = Unit
InRange (connect_timeout n) = n ≡ 20

-- The TLS configuration that was set last.
abbrev pub tls_of : List Setting → Option TlsConfig
tls_of [] = none
tls_of (tls_config tls ∷ rest) = some tls
tls_of (http2_keep_alive_interval n ∷ rest) = tls_of rest
tls_of (keep_alive_timeout n ∷ rest) = tls_of rest
tls_of (max_frame_size n ∷ rest) = tls_of rest
tls_of (initial_stream_window_size n ∷ rest) = tls_of rest
tls_of (initial_connection_window_size n ∷ rest) = tls_of rest
tls_of (http2_adaptive_window b ∷ rest) = tls_of rest
tls_of (user_agent ua ∷ rest) = tls_of rest
tls_of (connect_timeout n ∷ rest) = tls_of rest

-- In range, and without TLS so far.
abbrev Plain : EndpointConfig → Type 0
Plain e = All InRange e.settings × (tls_of e.settings ≡ none)

keepalive-Plain :
    (n : Option ℤ) (e : EndpointConfig) → Plain e → Plain (add_positive n keep_alive_timeout e)
keepalive-Plain none e p = p
keepalive-Plain (some (pos n)) e p = ground (arith, p)
keepalive-Plain (some (ℤ.negsuc n)) e p = ground (arith, p)

interval-Plain :
    (n : Option ℤ) (e : EndpointConfig)
    → Plain e
    → Plain (add_positive n http2_keep_alive_interval e)
interval-Plain none e p = p
interval-Plain (some (pos n)) e p = ground (arith, p)
interval-Plain (some (ℤ.negsuc n)) e p = ground (arith, p)

frame_size-Plain : (n : Option ℕ) (e : EndpointConfig) → Plain e → Plain (add_frame_size n e)
frame_size-Plain none e p = p
frame_size-Plain (some n) e p = ground (arith, p)

-- Every number that `u32::try_from` takes is one.
abbrev IsU32 : Option ℕ → Type 0
IsU32 none = Unit
IsU32 (some n) = n < 2 ^ 32

as_u32-IsU32 : (n : Option ℤ) → IsU32 (and_then n as_u32)
as_u32-IsU32 none = tt
as_u32-IsU32 (some (pos n)) = ground arith
as_u32-IsU32 (some (ℤ.negsuc n)) = tt

windows-Plain : (n : Option ℕ) (e : EndpointConfig) → IsU32 n → Plain e → Plain (add_windows n e)
windows-Plain none e u p = p
windows-Plain (some n) e u p = ground (arith, p)

adaptive-Plain : (n : Option ℤ) (e : EndpointConfig) → Plain e → Plain (add_adaptive n e)
adaptive-Plain none e p = p
adaptive-Plain (some n) e p = ((tt, p.0), p.1)

module _ ⦃host : Host⦄ where
  tune-Plain : (args : Table) (e : EndpointConfig) → Plain e → Plain (tune args e)
  unfolding tune
  tune-Plain args e p =
      let e1 = add_positive (long_arg "grpc.keepalive_time_ms" args) http2_keep_alive_interval e in
      let e2 = add_positive (long_arg "grpc.keepalive_timeout_ms" args) keep_alive_timeout e1 in
      let size = and_then (long_arg "grpc.http2.max_frame_size" args) as_u32 in
      let lookahead = long_arg "grpc.http2.lookahead_bytes" args in
      adaptive-Plain (long_arg "grpc.http2.bdp_probe" args)
        (add_windows (and_then lookahead as_u32) (add_frame_size size e2))
        (windows-Plain (and_then lookahead as_u32) (add_frame_size size e2) (as_u32-IsU32 lookahead)
          (frame_size-Plain size e2 (
            keepalive-Plain (long_arg "grpc.keepalive_timeout_ms" args) e1
              (interval-Plain (long_arg "grpc.keepalive_time_ms" args) e p))))

  user_agent-Plain :
      (t : Transport) (ua : Option String) (e : EndpointConfig) {e' : EndpointConfig}
      → Plain e
      → add_user_agent t ua e ≡ ok e'
      → Plain e'
  unfolding add_user_agent
  user_agent-Plain t none e {e'} p h = let same : e ≡ e' = cc h in subst Plain same p
  user_agent-Plain t (some ua) e {e'} p h = elim (Option-cases (t.user_agent_error ua)) [
    | inl n ↦
        let same : apply (user_agent ua) e ≡ e' = ground arith in subst Plain same ((tt, p.0), p.1)
    | inr (x, n) ↦ absurd (ground arith)
  ]

-- In range, and with this TLS configuration.
abbrev Secured : Option TlsConfig → EndpointConfig → Type 0
Secured tls e = All InRange e.settings × (tls_of e.settings ≡ tls)

module _ ⦃host : Host⦄ where
  tls-Secured :
      (t : Transport) (tls : Option TlsConfig) (e : EndpointConfig) {e' : EndpointConfig}
      → Plain e
      → add_tls t tls e ≡ ok e'
      → Secured tls e'
  unfolding add_tls
  tls-Secured t none e {e'} p h = let same : e ≡ e' = cc h in subst (Secured none) same p
  tls-Secured t (some tls) e {e'} p h = elim (Option-cases (t.tls_error tls)) [
    | inl n ↦
        let same : apply (tls_config tls) e ≡ e' = ground arith in
        subst (Secured (some tls)) same ((tt, p.0), refl)
    | inr (x, n) ↦ absurd (ground arith)
  ]

  is_some-override :
      (name : Option String) (tls : Option TlsConfig)
      → is_some (override_name name tls) ≡ is_some tls
  unfolding override_name
  is_some-override none none = refl
  is_some-override none (some tls) = refl
  is_some-override (some name) none = refl
  is_some-override (some name) (some tls) = refl

  -- What `build` makes.
  pub build-InRange :
      (t : Transport) (args : Table) (target : String) (tls : Option TlsConfig) {e : EndpointConfig}
      → build t args target tls ≡ ok e
      → All InRange e.settings × (is_some (tls_of e.settings) ≡ is_some tls)
  unfolding build
  build-InRange t args target tls {e} h =
      let uri = uri_target target tls in
      let start : EndpointConfig = record { uri = uri; settings = [] } in
      let (e0, h0, h1) = bind_returned (refuse invalid_uri (t.uri_error uri) start) _ h in
      let same : start ≡ e0 = ground (arith, Option-cases (t.uri_error uri)) in
      let tuned = tune-Plain args e0 (subst Plain same (tt, refl)) in
      let (e1, h2, h3) =
        bind_returned (add_user_agent t (string_arg "grpc.primary_user_agent" args) (tune args e0))
          _ h1 in
      let named = override_name (string_arg "grpc.ssl_target_name_override" args) tls in
      let (e2, h4, h5) = bind_returned (add_tls t named e1) _ h3 in
      let secured =
        tls-Secured t named e1
          (user_agent-Plain t (string_arg "grpc.primary_user_agent" args) (tune args e0) tuned h2)
          h4 in
      let last : apply (connect_timeout 20) e2 ≡ e = cc h5 in
      subst (λ e. All InRange e.settings × (is_some (tls_of e.settings) ≡ is_some tls)) last
        (
          (refl, secured.0),
          ap (is_some {A = TlsConfig}) secured.1
              ∙ is_some-override (string_arg "grpc.ssl_target_name_override" args) tls,
        )
