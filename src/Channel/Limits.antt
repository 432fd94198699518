-- ===== src/Channel/Limits.antt =====
-- The limits on the size of messages, from the arguments to the channel.
use grpc_php_rs.Common.{◌≡◌, ◌∙◌, ℕ, String, Option, arith, false, inl, inr}
use grpc_php_rs.Host.{Host, Zval, Table, get}
use grpc_php_rs.Error.{GrpcError, Result, ok}
use grpc_php_rs.Error.Ensures.{bind_returned, Result-cases}
use grpc_php_rs.Credentials.{ChannelCredentials}
use grpc_php_rs.Channel.Args.{validate, size_limit}
use grpc_php_rs.Channel.Endpoint.{Transport}
use grpc_php_rs.Channel.{
  World, Channel, Config, read_config, read_credentials, construct, connect, open_channel,
  get_max_decoding_message_size, get_max_encoding_message_size,
}

module _ ⦃host : Host⦄ (extract : Zval → Option ChannelCredentials) (transport : Transport) where
  read_config_limits :
      (target : String) (args : Table) {c : Config}
      → read_config extract target args ≡ ok c
      → (c.max_decoding ≡ size_limit (get "grpc.max_receive_message_length" args))
        × (c.max_encoding ≡ size_limit (get "grpc.max_send_message_length" args))
  unfolding read_config
  read_config_limits target args e =
      let (checked, valid, e1) = bind_returned (validate false args) _ e in
      let (creds, read, e2) =
        bind_returned (read_credentials extract (get "credentials" args)) _ e1 in
      (ground (arith, e2), ground (arith, e2))

  connect_limits :
      (runtime : Result GrpcError ℕ) (c : Config) (w : World) {ch : Channel}
      → (connect extract transport runtime c w).0 ≡ ok ch
      → (get_max_decoding_message_size ch ≡ c.max_decoding)
        × (get_max_encoding_message_size ch ≡ c.max_encoding)
  unfolding connect open_channel get_max_decoding_message_size get_max_encoding_message_size
  connect_limits runtime c w e = (ground arith, ground arith)

  pub construct_limits :
      (runtime : Result GrpcError ℕ) (target : String) (args : Table) (w : World) {ch : Channel}
      → (construct extract transport runtime target args w).0 ≡ ok ch
      → (get_max_decoding_message_size ch ≡ size_limit (get "grpc.max_receive_message_length" args))
        × (get_max_encoding_message_size ch ≡ size_limit (get "grpc.max_send_message_length" args))
  unfolding construct
  construct_limits runtime target args w e = elim (Result-cases (read_config extract target args)) [
    | inr (x, p) ↦ absurd (ground arith)
    | inl (c, p) ↦
        let config = read_config_limits target args p in
        let made = connect_limits runtime c w (ground arith) in
        (made.0 ∙ config.0, made.1 ∙ config.1)
  ]
