-- ===== src/Timeval.antt =====
-- src/timeval.rs: microseconds that are either an absolute time or a span. The clock's reading is an
-- argument of the operations that take one.
pub mod Arith
pub mod Clock
mod Tests
use grpc_php_rs.Common.{
  ℕ, Bool, true, false, not, ◌&&◌, ◌||◌, String, Option, none, some, ℤ, pos, negsuc, i64_max,
  i64_min, leb, ltb_ℤ, leb_ℤ, eqb_ℤ, pos_part, saturating_add, saturating_sub, saturating_abs, ◌^◌,
  ◌-◌, if◌then◌else◌,
}
use grpc_php_rs.Host.{Host, Zval, as_long, as_double}
use grpc_php_rs.Error.{
  GrpcError, PhpResult, Result, ok, err, default, invalid_argument, from, map_err, ◌>>=◌,
}

pub record Timeval : Type 0 where
  pub usec : ℤ
  pub is_span : Bool

-- `SystemTime::now().duration_since(UNIX_EPOCH)`: microseconds, or a clock before the epoch.
pub data Reading : Type 0 where
  since_epoch : ℕ → Reading
  before_epoch : String → Reading

-- `i64::try_from` of a number of microseconds.
abbrev i64_try_from : ℕ → Option ℤ
i64_try_from n = if leb n (2 ^ 63 - 1) then some (pos n) else none

abbrev pub is_infinite : ℤ → Bool
is_infinite usec = eqb_ℤ usec i64_max || eqb_ℤ usec i64_min

module _ ⦃host : Host⦄ where
  pub construct : Zval → PhpResult Timeval
  unfolding invalid_argument
  construct value = elim (as_long value) [
    | some l ↦ ok (record { usec = l; is_span = true })
    | none ↦ elim (as_double value) [
      | some d ↦ ok (record { usec = host.f64_as_i64 d; is_span = true })
      | none ↦ err (invalid_argument "Timeval expects a numeric microseconds value")
    ]
  ]

unfoldable get_usec : Timeval → ℤ
get_usec t = t.usec

-- The reading that `to_absolute_usec` falls back from.
epoch_usec : Reading → ℤ
epoch_usec (before_epoch e) = pos 0
epoch_usec (since_epoch n) = elim (i64_try_from n) [ some u ↦ u | none ↦ pos 0 ]

unfoldable pub to_absolute_usec : Timeval → Reading → ℤ
unfolding epoch_usec saturating_add
to_absolute_usec t clock =
    if not t.is_span || is_infinite t.usec then t.usec else saturating_add (epoch_usec clock) t.usec

-- The reading that `now` and `sleepUntil` fail on.
pub read : Reading → PhpResult ℤ
read (before_epoch e) = err (default e)
read (since_epoch n) = elim (i64_try_from n) [
  | some u ↦ ok u
  | none ↦ err (default "out of range integral type conversion attempted")
]

pub now : Reading → PhpResult Timeval
unfolding read
now clock = do usec ← read clock; ok (record { usec = usec; is_span = false })

unfoldable pub inf_future : Timeval
inf_future = record { usec = i64_max; is_span = false }

unfoldable pub inf_past : Timeval
inf_past = record { usec = i64_min; is_span = false }

unfoldable zero_timeval : Timeval
zero_timeval = record { usec = pos 0; is_span = true }

pub similar : Timeval → Timeval → Timeval → Bool
unfolding saturating_sub saturating_abs
similar a b threshold =
    leb_ℤ (saturating_abs (saturating_sub a.usec b.usec)) (saturating_abs threshold.usec)

pub compare : Timeval → Timeval → ℤ
compare a b = if ltb_ℤ a.usec b.usec then negsuc 0 else if eqb_ℤ a.usec b.usec then pos 0 else pos 1

pub add : Timeval → Timeval → Timeval
unfolding saturating_add
add t other =
    if is_infinite t.usec
    then t
    else record { usec = saturating_add t.usec other.usec; is_span = t.is_span && other.is_span }

pub subtract : Timeval → Timeval → Timeval
unfolding saturating_sub
subtract t other =
    if is_infinite t.usec
    then t
    else record { usec = saturating_sub t.usec other.usec; is_span = t.is_span && other.is_span }

-- `sleepUntil`: the microseconds that it sleeps, or `none` where it returns at once. The runtime is
-- what `get_runtime` returns on the thread.
pub sleep_until : Timeval → Reading → Result GrpcError ℕ → PhpResult (Option ℕ)
unfolding read saturating_sub from
sleep_until t clock runtime = read clock >>= λ now_usec.
    let remaining = saturating_sub t.usec now_usec in
    if ltb_ℤ (pos 0) remaining && not (eqb_ℤ t.usec i64_max)
    then map_err from runtime >>= (λ rt. ok (some (pos_part remaining)))
    else ok none
