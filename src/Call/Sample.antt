-- ===== src/Call/Sample.antt =====
-- A call and an environment for concrete runs.
use grpc_php_rs.Host.{Zval, Table, nil, entry, ArrayKey}
use grpc_php_rs.Channel.{World}
use grpc_php_rs.Call.State.{CallState, Call, Environment, Unary, returned}
use grpc_php_rs.Common.{[], ◌∷◌, some, none, pos, true, false}
use grpc_php_rs.Error.{ok}
use grpc_php_rs.Deadline.{Status}
use grpc_php_rs.Stream.{refused}

abbrev pub unavailable : Status
unavailable = record { code = 14; message = "no route"; metadata = []; details = [] }

abbrev pub calm : Environment
calm = record {
  runtime = ok 0;
  now_dispatch = pos 10;
  now_request = pos 11;
  now_report = pos 12;
  path_error = λ p. none;
  reply = λ v s. returned v;
  unary = Unary.responded [] (5 ∷ []);
  remote = refused unavailable (pos 12);
  takes_messages = true;
  ahead = 0;
  schedule = [];
  pump_writes = [];
  read_writes = [];
  later_writes = [];
}

abbrev pub fresh_call : Call
fresh_call = record {
  method = "/pkg.Service/Method";
  target = "localhost:1";
  deadline_usec = pos 100;
  host_override = none;
  call_plugin = none;
  cancelled = false;
  max_decoding = some 5;
  max_encoding = none;
  pending_metadata = [];
  pending_message = none;
  send_closed = false;
  initial_metadata_sent = false;
  finished = false;
  channel_closed = 0;
  channel_shared = some 0;
  stream_state = none;
  events = [];
}

abbrev pub open_world : World
open_world = record { shared = []; registry = []; flags = false ∷ [] }

abbrev pub fresh : CallState
fresh = record { call = fresh_call; world = open_world }

-- SEND_CLOSE_FROM_CLIENT
abbrev pub close_ops : Table
close_ops = entry (ArrayKey.long (pos 2)) (Zval.bool true) nil
