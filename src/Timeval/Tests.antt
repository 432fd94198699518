-- ===== src/Timeval/Tests.antt =====
-- Timeval at concrete values.
use grpc_php_rs.Common.{◌⊎◌, ◌≡◌, ◌↔◌, ◌+ℤ◌, ◌-ℤ◌, true, false, pos, negsuc}
use grpc_php_rs.Timeval.{Timeval, add, subtract}
use grpc_php_rs.Timeval.Arith.{IsInfinite, Nearest, add-subtract_exact}

abbrev second : Timeval
second = record { usec = pos 1_000_000; is_span = true }

abbrev moment : Timeval
moment = record { usec = pos 1_700_000_000; is_span = false }

abbrev early : Timeval
early = record { usec = negsuc 41; is_span = false }

add-subtract_exact_example :
    (IsInfinite early.usec × (add early second ≡ early) × (subtract early second ≡ early))
    ⊎ ((¬ IsInfinite early.usec)
        × Nearest (early.usec +ℤ second.usec) (add early second).usec
        × Nearest (early.usec -ℤ second.usec) (subtract early second).usec
        × (((add early second).is_span ≡ true) ↔ ((false ≡ true) × (true ≡ true)))
        × (((subtract early second).is_span ≡ true) ↔ ((false ≡ true) × (true ≡ true))))
add-subtract_exact_example = add-subtract_exact early second
