-- ===== src/Deadline/Tests.antt =====
-- Deadlines and statuses at concrete values.
use grpc_php_rs.Common.{◌≡◌, ◌≢◌, ◌↔◌, ◌⊎◌, [], pos, negsuc, ◌≤ℤ◌, ◌<ℤ◌, i64_max, arith}
use grpc_php_rs.Timeval.{since_epoch, to_absolute_usec, inf_past, inf_future}
use grpc_php_rs.Call.Request.{request_timeout}
use grpc_php_rs.Deadline.{Status, deadline_instant, deadline_already_expired, status_to_php}
use grpc_php_rs.Deadline.Expiry.{infpast_never_expires}
use grpc_php_rs.Deadline.Report.{status_to_php_exact}

abbrev timed_out : Status
timed_out = record { code = 1; message = "Timeout expired"; metadata = []; details = [] }

infpast_never_expires_example :
    let never = to_absolute_usec inf_future (since_epoch 9) in
    (to_absolute_usec inf_past (since_epoch 9) ≤ℤ pos 0)
    × (deadline_already_expired (negsuc 3) (pos 9) ≡ deadline_already_expired never (pos 9))
    × (deadline_instant (negsuc 3) (pos 9) 100 ≡ deadline_instant never (pos 9) 100)
    × (request_timeout (negsuc 3) (pos 9) ≡ request_timeout never (pos 9))
    × (status_to_php timed_out (negsuc 3) (pos 9) ≡ status_to_php timed_out never (pos 9))
infpast_never_expires_example =
    infpast_never_expires (since_epoch 9) (negsuc 3) (pos 9) 100 timed_out (omega arith)

status_to_php_exact_example :
    (((status_to_php timed_out (pos 7) (pos 9)).0 ≡ 4) ↔ (
      (timed_out.code ≡ 4)
      ⊎ ((timed_out.code ≡ 1) × (pos 0 <ℤ pos 7) × (pos 7 <ℤ i64_max) × (pos 7 ≤ℤ pos 9))))
    × (((status_to_php timed_out (pos 7) (pos 9)).0 ≡ 14) ↔ (
        (timed_out.code ≡ 14) ⊎ ((timed_out.code ≡ 2) × (timed_out.message ≡ "transport error"))))
    × (timed_out.code ≢ 1
        → timed_out.code ≢ 2
        → status_to_php timed_out (pos 7) (pos 9) ≡ (timed_out.code, timed_out.message))
status_to_php_exact_example = status_to_php_exact timed_out (pos 7) (pos 9)
