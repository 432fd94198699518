-- ===== src/Thread/Tests.antt =====
-- A thread at concrete values: one channel, one call, and the channel's close.
use grpc_php_rs.Channel
use grpc_php_rs.Metadata.Sample.{sample_host, sample_tonic}
use grpc_php_rs.Common.{refl, ◌≡◌, [], ◌∷◌, some, get_elem?}
use grpc_php_rs.Host.{nil}
use grpc_php_rs.Error.{ok, err, runtime_exception}
use grpc_php_rs.Channel.Endpoint.{connect_timeout}
use grpc_php_rs.Channel.Grows.{endpoints}
use grpc_php_rs.Channel.Reuse.{transport_of}
use grpc_php_rs.Channel.Sample.{
  no_credentials, plain, opened, one_object, sample_made, sample_config, sample_order, two_args,
  args_two,
}
use grpc_php_rs.Call.Sample.{calm, fresh_call}
use grpc_php_rs.Call.{start_batch}
use grpc_php_rs.Thread.Objects.{IsLinked}
use grpc_php_rs.Thread.Steps.{reachable-IsLinked}
use grpc_php_rs.Thread.Closed.{after_close, closed_forever}
use grpc_php_rs.Thread.Shares.{reuses_forever}
use grpc_php_rs.Thread.{Thread, Reach, no_objects, makes_channel, closes, here, next}

abbrev one_channel : Thread
one_channel = record { world = one_object; channels = opened ∷ []; calls = [] }

one_channel_reached : Reach no_credentials plain no_objects one_channel
one_channel_reached = next here (makes_channel (ok 0) "localhost:1" two_args sample_made)

reachable-IsLinked_example : IsLinked one_channel
reachable-IsLinked_example = reachable-IsLinked no_credentials plain one_channel one_channel_reached

closed_forever_example :
    start_batch calm nil
      (record { call = fresh_call; world = (after_close one_channel 0 opened).world })
    ≡ (
      err (runtime_exception "startBatch Error. Channel is closed"),
      record { call = fresh_call; world = (after_close one_channel 0 opened).world },
    )
closed_forever_example =
    closed_forever no_credentials plain one_channel 0 opened (after_close one_channel 0 opened)
      fresh_call calm nil one_channel_reached refl here refl

reuses_forever_example :
    let made =
      Channel.construct no_credentials plain
        (ok 1)
        "localhost:1"
        args_two
        (after_close one_channel 0 opened).world in
    (transport_of made.0 ≡ some 0)
    × (made.1.shared ≡ (after_close one_channel 0 opened).world.shared)
    × (get_elem? (endpoints (after_close one_channel 0 opened).world) 0
        ≡ some (record { uri = "http://localhost:1"; settings = connect_timeout 20 ∷ [] }))
reuses_forever_example =
    reuses_forever no_credentials plain no_objects (ok 0) (ok 1) "localhost:1" two_args args_two
      (after_close one_channel 0 opened) sample_config refl sample_made refl refl sample_order
      (next here (closes 0 refl))
