-- ===== src/Codec/Tests.antt =====
-- The codec at concrete bytes.
use grpc_php_rs.Common.{◌≡◌, [], ◌∷◌, some}
use grpc_php_rs.Error.{ok}
use grpc_php_rs.Codec.{encode, decode}
use grpc_php_rs.Codec.RoundTrip.{decode-encode}

decode-encode_example : decode (encode [] (7 ∷ 8 ∷ [])).1 ≡ (ok (some (7 ∷ 8 ∷ [])), [])
decode-encode_example = decode-encode [] (7 ∷ 8 ∷ [])
