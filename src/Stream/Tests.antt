-- ===== src/Stream/Tests.antt =====
-- A stream at concrete values.
use grpc_php_rs.Metadata.Sample.{sample_tonic}
use grpc_php_rs.Common.{arith, refl, ◌≡◌, inr, [], ◌∷◌, some, none, pos, true, false}
use grpc_php_rs.Stream.{ending_trailers, ActiveStream, streams, finished, starting}
use grpc_php_rs.Stream.Reads.{steps_left, drain}
use grpc_php_rs.Stream.Coherence.{Coherent}
use grpc_php_rs.Stream.Drain.{drain_exact}

abbrev two_messages : ActiveStream
two_messages = record {
  msg_tx = none;
  task = starting (streams [] ((1 ∷ []) ∷ (2 ∷ []) ∷ []) (finished []));
  buffer = [];
  initial_metadata = none;
  meta_rx = true;
  meta_sent = none;
  cached_trailers = none;
  trailers_rx = true;
  trailers_sent = none;
  connectivity = none;
}

two_messages-Coherent : Coherent two_messages
two_messages-Coherent = record { unreported = inr refl; unended = λ early. tt }

drain_exact_example :
    drain 20 ((3, false) ∷ []) (pos 0) two_messages
    ≡ some (some (record { code = 0; message = ""; metadata = [] }))
unfolding ending_trailers steps_left
drain_exact_example =
    drain_exact 20 ((3, false) ∷ []) (pos 0) two_messages two_messages-Coherent (omega arith)
