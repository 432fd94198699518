-- ===== src/Timeval/Clock.antt =====
-- Timeval against a clock: deadlines and sleeping.
use grpc_php_rs.Common.{
  ℕ, ◌≤◌, ◌<◌, ◌-◌, ◌^◌, ◌≡◌, ◌≢◌, ◌↔◌, ◌⊎◌, true, none, some, pos, ◌≤ℤ◌, i64_max, i64_min, IsI64,
  ◌+ℤ◌, arith,
}
use grpc_php_rs.Error.{ok}
use grpc_php_rs.Timeval.{Timeval, since_epoch, to_absolute_usec, now, add, sleep_until}

-- A span as a deadline is the deadline `now + span`: adding the span to what `now` returned at the
-- same reading of the clock, and resolving either, gives one value (the span is not i64::MIN and the
-- clock reads less than i64::MAX).
pub to_absolute_usec-add_now :
    (span current : Timeval) (n : ℕ)
    → span.is_span ≡ true
    → span.usec ≢ i64_min
    → IsI64 span.usec
    → n < 2 ^ 63 - 1
    → now (since_epoch n) ≡ ok current
    → to_absolute_usec (add current span) (since_epoch n) ≡ to_absolute_usec span (since_epoch n)
unfolding to_absolute_usec add now
to_absolute_usec-add_now span current n s ne range h e = ground arith

-- With a clock in range and a runtime, `sleepUntil` returns at once exactly if its value is not after
-- the clock or is the infinite future, whether it is a span or absolute; where it sleeps, the clock's
-- reading and the time slept add up to its value.
sleep_until_exact :
    (t : Timeval) (n rt : ℕ)
    → IsI64 t.usec
    → n ≤ 2 ^ 63 - 1
    → ((sleep_until t (since_epoch n) (ok rt) ≡ ok none) ↔ ((t.usec ≤ℤ pos n) ⊎ (t.usec ≡ i64_max)))
      × ((d : ℕ) → sleep_until t (since_epoch n) (ok rt) ≡ ok (some d) → pos n +ℤ pos d ≡ t.usec)
unfolding sleep_until ◌+ℤ◌
sleep_until_exact t n rt range h = (ground arith, λ d e. ground arith)
