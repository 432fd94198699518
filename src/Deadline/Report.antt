-- ===== src/Deadline/Report.antt =====
-- The code that PHP sees for a status.
use grpc_php_rs.Common.{◌≡◌, ◌≢◌, ◌↔◌, ◌⊎◌, ℤ, pos, ◌≤ℤ◌, ◌<ℤ◌, i64_max, eq_iff, arith}
use grpc_php_rs.Deadline.{Status, status_to_php}

-- DEADLINE_EXCEEDED is reported exactly for that code and for CANCELLED once a set deadline has
-- passed; UNAVAILABLE exactly for that code and for UNKNOWN with the text "transport error". Any code
-- but CANCELLED and UNKNOWN is reported unchanged, with its message.
pub status_to_php_exact :
    (s : Status) (d now : ℤ)
    → (((status_to_php s d now).0 ≡ 4)
        ↔ ((s.code ≡ 4) ⊎ ((s.code ≡ 1) × (pos 0 <ℤ d) × (d <ℤ i64_max) × (d ≤ℤ now))))
      × (((status_to_php s d now).0 ≡ 14)
          ↔ ((s.code ≡ 14) ⊎ ((s.code ≡ 2) × (s.message ≡ "transport error"))))
      × (s.code ≢ 1 → s.code ≢ 2 → status_to_php s d now ≡ (s.code, s.message))
unfolding status_to_php
status_to_php_exact s d now = ground (arith, eq_iff s.message "transport error")
