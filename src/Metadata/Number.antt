-- ===== src/Metadata/Number.antt =====
-- `str::parse::<i64>`, by which src/call.rs reads a batch key that is text.
use grpc_php_rs.Common.{
  ℕ, ◌+◌, ◌-◌, ◌*◌, ◌^◌, ◌&&◌, String, code, Option, none, some, ℤ, pos, negsuc, leb, ◌==◌,
  and_then, if◌then◌else◌,
}

parse_digits : ℕ → String → Option ℕ
parse_digits n String.[] = some n
parse_digits n (String.◌∷◌ c s) =
    let rest = parse_digits (n * 10 + (code c - 48)) s in
    if leb 48 (code c) && leb (code c) 57 then rest else none

-- At least one digit, and nothing else.
digits : String → Option ℕ
unfolding parse_digits
digits String.[] = none
digits (String.◌∷◌ c s) = parse_digits 0 (String.◌∷◌ c s)

abbrev upto_max : ℕ → Option ℤ
upto_max n = if leb n (2 ^ 63 - 1) then some (pos n) else none

abbrev negated : ℕ → Option ℤ
negated n = if n == 0 then some (pos 0) else if leb n (2 ^ 63) then some (negsuc (n - 1)) else none

unfoldable pub parse_i64 : String → Option ℤ
unfolding digits
parse_i64 String.[] = none
parse_i64 (String.◌∷◌ c s) =
    if code c == b'-'
    then and_then (digits s) negated
    else and_then (digits (if code c == b'+' then s else String.◌∷◌ c s)) upto_max
