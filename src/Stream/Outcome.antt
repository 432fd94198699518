-- ===== src/Stream/Outcome.antt =====
-- A connection that fails before a stream is open.
use grpc_php_rs.Common.{refl, ◌≡◌, [], some, ℤ}
use grpc_php_rs.Metadata.Map.{Tonic}
use grpc_php_rs.Deadline.{Status}
use grpc_php_rs.Stream.{
  ActiveStream, starting, not_ready, failed, step, step_task, begin, push, after_close,
}
use grpc_php_rs.Stream.Reads.{receive, receive_from, steps_left}

-- What PHP reads first is the failure.
pub receive_not_ready :
    ⦃tonic : Tonic⦄ (status : Status) (d : ℤ) (s : ActiveStream)
    → (receive d (record s { task = starting (not_ready status); buffer = [] })).0
      ≡ some (failed status)
unfolding receive receive_from step step_task begin push after_close steps_left
receive_not_ready status d s = refl
