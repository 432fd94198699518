-- ===== src/Deadline/Expiry.antt =====
-- When a call's deadline has passed.
use grpc_php_rs.Common.{ℕ, ◌≡◌, ◌↔◌, true, ℤ, pos, ◌≤ℤ◌, ◌<ℤ◌, i64_max, IsI64, arith}
use grpc_php_rs.Timeval.{Reading, to_absolute_usec, inf_past, inf_future}
use grpc_php_rs.Deadline.{Status, status_to_php, deadline_instant, deadline_already_expired}
use grpc_php_rs.Call.Request.{request_timeout}

-- A deadline counts as expired exactly if it is positive, below i64::MAX and not after the clock; and
-- for such a finite deadline the instant that the awaits race against is the present one exactly if
-- it has expired.
pub expired_exact :
    (d now : ℤ) (instant : ℕ)
    → IsI64 d
    → ((deadline_already_expired d now ≡ true) ↔ ((pos 0 <ℤ d) × (d <ℤ i64_max) × (d ≤ℤ now)))
      × (pos 0 <ℤ d
          → d <ℤ i64_max
          → (deadline_already_expired d now ≡ true) ↔ (deadline_instant d now instant ≡ instant))
unfolding deadline_already_expired deadline_instant
expired_exact d now instant h = ground arith

-- A deadline at or before the epoch, such as `infPast` resolved at any reading of the clock, is taken
-- for no deadline at all: the functions that read it do what they do for `infFuture`, whatever the
-- clock says. The call counts as expired alike, its awaits race against the same instant, its requests
-- have the same timeout, and its statuses are reported alike.
pub infpast_never_expires :
    (clock : Reading) (d now : ℤ) (instant : ℕ) (s : Status)
    → d ≤ℤ pos 0
    → let never = to_absolute_usec inf_future clock in
      (to_absolute_usec inf_past clock ≤ℤ pos 0)
      × (deadline_already_expired d now ≡ deadline_already_expired never now)
      × (deadline_instant d now instant ≡ deadline_instant never now instant)
      × (request_timeout d now ≡ request_timeout never now)
      × (status_to_php s d now ≡ status_to_php s never now)
unfolding deadline_already_expired deadline_instant to_absolute_usec inf_past inf_future
    request_timeout status_to_php
infpast_never_expires clock d now instant s h =
    (ground arith, ground arith, ground arith, ground arith, ground arith)
