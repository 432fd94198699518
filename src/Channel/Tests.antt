-- ===== src/Channel/Tests.antt =====
-- Channels at concrete values.
use grpc_php_rs.Common.{
  inl, ◌≢◌, String, refl, ◌+ℤ◌, ◌-ℤ◌, arith, ◌≡◌, ℕ, ◌*◌, [], ◌∷◌, some, none, pos, Bool, true,
  false, get_elem?,
}
use grpc_php_rs.Channel.Sample.{one_object, no_credentials, plain, opened}
use grpc_php_rs.Channel.Endpoint.{build, uri_target, tune, override_name, add_user_agent, add_tls}
use grpc_php_rs.Metadata.Sample.{sample_host}
use grpc_php_rs.Host.{get, Zval, Table, nil, entry, ArrayKey}
use grpc_php_rs.Error.{ok, err, runtime_exception}
use grpc_php_rs.Channel.Args.{arg_key, next_force, is_truthy, part_of, validate, size_limit}
use grpc_php_rs.Channel.Watch.{wait_usec, Round, watch, Ends, SleepsLongEnough, watch_total}
use grpc_php_rs.Channel.{
  build, read_config, connect, read_credentials, persist_key, existing, find_key, register,
  open_channel, build_with, World, construct,
}
use grpc_php_rs.Channel.Connectivity.{get_target, get_connectivity_state, close}
use grpc_php_rs.Channel.Reuse.{transport_of}
use grpc_php_rs.Channel.Isolated.{construct_isolated}
use grpc_php_rs.Channel.Closing.{close_exact}

abbrev own_args : Table
own_args = entry (ArrayKey.str "force_new") (Zval.bool true) nil

construct_isolated_example :
    let w' = (construct no_credentials plain (ok 0) "localhost:1" own_args one_object).1 in
    (transport_of (construct no_credentials plain (ok 0) "localhost:1" own_args one_object).0
      ≡ some 1)
    × (w'.registry ≡ one_object.registry)
    × ((key : String) → find_key key w'.registry ≢ some 1)
unfolding construct connect read_config read_credentials validate size_limit persist_key existing
    find_key register open_channel build_with build uri_target tune override_name add_user_agent
    add_tls arg_key next_force is_truthy part_of get
construct_isolated_example =
    construct_isolated no_credentials plain (ok 0) "localhost:1" own_args one_object
      (omega arith, tt) (inl (Zval.bool true, refl, refl)) refl

abbrev two_objects : World
two_objects = record { shared = []; registry = []; flags = false ∷ false ∷ [] }

close_exact_example :
    (get_target (close opened two_objects).0
      ≡ err (runtime_exception "getTarget error.Channel is already closed."))
    × ((get_connectivity_state none
          (close opened two_objects).0
          (ok 0)
          (λ w. w)
          (close opened two_objects).1).0
        ≡ err (runtime_exception "getConnectivityState error.Channel is already closed."))
    × (get_elem? (close opened two_objects).1.flags 0 ≡ some true)
    × (get_elem? (close opened two_objects).1.flags 1 ≡ some false)
    × ((close opened two_objects).1.shared ≡ [])
    × ((close opened two_objects).1.registry ≡ [])
close_exact_example = close_exact opened two_objects (ok 0) (λ w. w) 1 (omega arith) (omega arith)

abbrev ticks : ℕ → Round
ticks i = record { state = pos 2; now = pos (i * 10_000) }

ticks-SleepsLongEnough : SleepsLongEnough ticks (pos 15_000)
unfolding wait_usec ◌+ℤ◌
ticks-SleepsLongEnough i = ground arith

watch_total_example :
    (answer : Bool) × (j : ℕ) × (watch 15_001 ticks 0 (pos 2) (pos 15_000) ≡ some answer)
    × Ends ticks 0 (pos 2) (pos 15_000) answer j
unfolding ◌-ℤ◌
watch_total_example =
    watch_total 15_001 ticks 0 (pos 2) (pos 15_000) ticks-SleepsLongEnough (omega arith)
