-- ===== src/Codec.antt =====
-- src/codec.rs: messages pass through as raw bytes. A buffer is the bytes that it holds.
pub mod RoundTrip
mod Tests
use grpc_php_rs.Common.{ℕ, zero, suc, [], ◌∷◌, ◌++◌, Option, some, length, ◌==◌, if◌then◌else◌}
use grpc_php_rs.Host.{Bytes}
use grpc_php_rs.Error.{Result, ok}
use grpc_php_rs.Deadline.{Status}

-- `RawBytesEncoder::encode`: `dst.put(item)`. It returns the buffer too.
pub encode : Bytes → Bytes → Result Status (Unit {0}) × Bytes
encode item dst = (ok tt, dst ++ item)

take : ℕ → Bytes → Bytes
take zero bs = []
take (suc n) [] = []
take (suc n) (b ∷ bs) = b ∷ take n bs

drop : ℕ → Bytes → Bytes
drop zero bs = bs
drop (suc n) [] = []
drop (suc n) (b ∷ bs) = drop n bs

-- `RawBytesDecoder::decode`, and what it leaves in the buffer.
pub decode : Bytes → Result Status (Option Bytes) × Bytes
unfolding take drop
decode src =
    let remaining = length src in
    if remaining == 0
    then (ok (some []), src)
    else (ok (some (take remaining src)), drop remaining src)
