-- ===== src/Codec/RoundTrip.antt =====
-- Decoding what was encoded.
use grpc_php_rs.Common.{◌≡◌, refl, ap, ◌∷◌, [], ◌++◌, some, length, arith}
use grpc_php_rs.Host.{Bytes}
use grpc_php_rs.Error.{ok}
use grpc_php_rs.Codec.{encode, take, drop, decode}

take_all : (bs : Bytes) → take (length bs) bs ≡ bs
unfolding take
take_all [] = refl
take_all (b ∷ bs) = ap (◌∷◌ b) (take_all bs)

drop_all : (bs : Bytes) → drop (length bs) bs ≡ []
unfolding drop
drop_all [] = refl
drop_all (b ∷ bs) = drop_all bs

-- Decoding a buffer gives one message, the whole buffer, and leaves it empty. So two messages encoded
-- one after the other decode to their concatenation, and an empty message to an empty message rather
-- than to no message.
pub decode-encode : (item dst : Bytes) → decode (encode item dst).1 ≡ (ok (some (dst ++ item)), [])
unfolding encode decode
decode-encode item [] = elim item as (λ i. decode (encode i []).1 ≡ (ok (some i), [])) [
  | [] ↦ refl
  | b ∷ bs ↦ ground (arith, take_all (b ∷ bs), drop_all (b ∷ bs))
]
decode-encode item (b ∷ bs) =
    ground (arith, take_all (b ∷ (bs ++ item)), drop_all (b ∷ (bs ++ item)))
