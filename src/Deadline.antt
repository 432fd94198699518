-- ===== src/Deadline.antt =====
-- src/call.rs: the deadline of a call, and how a status is reported to PHP. The clock's reading and
-- tokio's present instant are arguments; an instant is a number of microseconds.
pub mod Expiry
pub mod Report
mod Tests
use Prim.Native.Nat.{◌%◌}
use grpc_php_rs.Common.{
  ℕ, ◌+◌, ◌*◌, ◌-◌, ◌^◌, [], Bool, ◌&&◌, ◌||◌, String, ltb, leb_ℤ, ltb_ℤ, eqb_ℤ, ◌==◌, str_eq,
  if◌then◌else◌, ℤ, pos, negsuc, pos_part, i64_max, saturating_sub,
}
use grpc_php_rs.Host.{Bytes}
use grpc_php_rs.Metadata.Map.{MetadataMap}
use grpc_php_rs.Timeval.{Reading, since_epoch, before_epoch}

-- `d.as_micros() as i64`: the low 64 bits, as a signed number.
as_i64 : ℕ → ℤ
as_i64 n = let w = n % 2 ^ 64 in if ltb w (2 ^ 63) then pos w else negsuc (2 ^ 64 - w - 1)

pub now_usec : Reading → ℤ
unfolding as_i64
now_usec (before_epoch e) = pos 0
now_usec (since_epoch n) = as_i64 n

-- Thirty years, in microseconds.
abbrev pub far : ℕ
far = 86_400 * 365 * 30 * 1_000_000

pub deadline_instant : ℤ → ℤ → ℕ → ℕ
unfolding saturating_sub
deadline_instant deadline_usec now instant =
    if leb_ℤ deadline_usec (pos 0) || eqb_ℤ deadline_usec i64_max
    then instant + far
    else instant + pos_part (saturating_sub deadline_usec now)

unfoldable pub deadline_already_expired : ℤ → ℤ → Bool
deadline_already_expired deadline_usec now =
    ltb_ℤ (pos 0) deadline_usec && (ltb_ℤ deadline_usec i64_max && leb_ℤ deadline_usec now)

-- A tonic status, by what its accessors return; the code is its number.
pub record Status : Type 0 where
  pub code : ℕ
  pub message : String
  pub metadata : MetadataMap
  pub details : Bytes

-- `StreamTrailers`
pub record StreamTrailers : Type 0 where
  pub code : ℕ
  pub message : String
  pub metadata : MetadataMap

unfoldable pub deadline_exceeded_trailers : StreamTrailers
deadline_exceeded_trailers = record { code = 4; message = "Deadline Exceeded"; metadata = [] }

unfoldable pub status_to_php : Status → ℤ → ℤ → ℕ × String
status_to_php status deadline_usec now =
    let deadline_set = ltb_ℤ (pos 0) deadline_usec && ltb_ℤ deadline_usec i64_max in
    if (status.code == 1) && (deadline_set && leb_ℤ deadline_usec now)
    then (4, "Deadline Exceeded")
    else if (status.code == 2) && str_eq status.message "transport error"
    then (14, "transport error")
    else (status.code, status.message)
