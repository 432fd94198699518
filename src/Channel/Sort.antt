-- ===== src/Channel/Sort.antt =====
-- Rust's `sort` on texts, by which src/channel.rs brings the parts of a channel's key into one order.
pub mod Laws
use Prim.Native.String.{compare}
use Prim.Native.Nat.{Ordering}
use grpc_php_rs.Common.{Bool, true, false, String, List, [], ◌∷◌, if◌then◌else◌}

-- `a <= b`, by the bytes.
abbrev pub str_leb : String → String → Bool
str_leb s t = elim (compare s t) [ Ordering.gt ↦ false | _ ↦ true ]

pub insert : String → List String → List String
insert s [] = s ∷ []
insert s (t ∷ ts) = if str_leb s t then s ∷ t ∷ ts else t ∷ insert s ts

pub sort : List String → List String
unfolding insert
sort [] = []
sort (s ∷ ss) = insert s (sort ss)
