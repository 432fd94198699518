-- ===== src/Channel/Sample.antt =====
-- A transport, a channel and a first run of its constructor, for concrete runs.
use grpc_php_rs.Common.{eq_iff, ◌≢◌, concat, pos, refl, ◌≡◌, [], ◌∷◌, some, none, false, Option}
use grpc_php_rs.Channel.Rearranged.{Rearranged}
use grpc_php_rs.Channel.Args.{
  arg_value, arg_key, next_force, is_truthy, part_of, validate, size_limit,
}
use grpc_php_rs.Error.Decimal.{to_string}
use grpc_php_rs.Host.{entry, ArrayKey, nil, Zval, Table, get}
use grpc_php_rs.Channel.Sort.{sort}
use grpc_php_rs.Channel.Endpoint.{
  connect_timeout, build, uri_target, tune, override_name, add_user_agent, add_tls, Transport,
}
use grpc_php_rs.Channel.{
  String, channel_idle, read_config, connect, read_credentials, persist_key, existing, find_key,
  register, open_channel, build_with, Channel, World, construct,
}
use grpc_php_rs.Metadata.Sample.{sample_host}
use grpc_php_rs.Error.{ok}
use grpc_php_rs.Credentials.{ChannelCredentials}

abbrev pub no_credentials : Zval → Option ChannelCredentials
no_credentials v = none

abbrev pub plain : Transport
plain = record { uri_error = λ u. none; user_agent_error = λ u. none; tls_error = λ t. none }

abbrev pub empty : World
empty = record { shared = []; registry = []; flags = [] }

abbrev pub opened : Channel
opened = record {
  inner = some (record {
    shared = 0;
    target = "localhost:1";
    call_plugin = none;
    max_decoding = some 5;
    max_encoding = none;
  });
  closed_flag = 0;
}

-- Two arguments, in both orders.
abbrev pub two_args : Table
two_args =
    entry (ArrayKey.str "grpc.max_receive_message_length") (Zval.long (pos 5))
      (entry (ArrayKey.str "b") (Zval.long (pos 2)) nil)

abbrev pub args_two : Table
args_two =
    entry (ArrayKey.str "b") (Zval.long (pos 2))
      (entry (ArrayKey.str "grpc.max_receive_message_length") (Zval.long (pos 5)) nil)

abbrev pub sample_key : String
sample_key = persist_key "localhost:1" 0 (
    sort (
      concat "grpc.max_receive_message_length" (concat "=" (to_string (pos 5)))
      ∷ concat "b" (concat "=" (to_string (pos 2)))
      ∷ []))

not_same : ◌≢◌ {A = String} "grpc.max_receive_message_length" "b"
not_same e = cc ((eq_iff "grpc.max_receive_message_length" "b").1 e)

pub sample_order : Rearranged two_args args_two
unfolding arg_key
sample_order =
    Rearranged.swaps (ArrayKey.str "grpc.max_receive_message_length") (Zval.long (pos 5))
      (ArrayKey.str "b") (Zval.long (pos 2))
      (λ s e f. not_same (cc (e, f)), λ s e f. not_same (cc (e, f)))

-- A world with one transport, one key and one object.
abbrev pub one_object : World
one_object = record {
  shared =
      record {
        channel = record { uri = "http://localhost:1"; settings = connect_timeout 20 ∷ [] };
        state = channel_idle;
      }
      ∷ [];
  registry = (sample_key, 0) ∷ [];
  flags = false ∷ [];
}

pub sample_made :
    construct no_credentials plain (ok 0) "localhost:1" two_args empty ≡ (ok opened, one_object)
unfolding get construct connect read_config read_credentials validate size_limit persist_key
    existing find_key register open_channel build_with build uri_target tune override_name
    add_user_agent add_tls arg_key next_force is_truthy part_of arg_value
sample_made = refl

pub sample_config :
    read_config no_credentials "localhost:1" two_args
    ≡ ok (record {
      target = "localhost:1";
      args = two_args;
      tls = none;
      call_plugin = none;
      max_decoding = some 5;
      max_encoding = none;
      persist_key = some sample_key;
    })
unfolding get read_config read_credentials validate size_limit arg_key next_force is_truthy part_of
    arg_value
sample_config = refl
