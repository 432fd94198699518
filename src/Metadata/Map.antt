-- ===== src/Metadata/Map.antt =====
-- What src/call.rs uses of tonic's metadata. A `MetadataMap` is the list of the entries that its
-- `iter` yields; tonic's own operations on it are the fields of `Tonic`.
use grpc_php_rs.Common.{String, ◌≡◌, ◌≢◌, List, [], ◌∷◌, Option, some, str_eq, if◌then◌else◌}
use grpc_php_rs.Host.{Bytes}

-- `KeyAndValueRef`: the key, and the value as it is on the wire.
pub data KeyAndValue : Type 0 where
  ascii : String → Bytes → KeyAndValue
  binary : String → Bytes → KeyAndValue

abbrev pub MetadataMap : Type 0
MetadataMap = List KeyAndValue

pub record Tonic : Type 0 where
  -- `MetadataValue<Ascii>::to_str`: the bytes of the text, if all are visible ASCII
  pub to_str : Bytes → Option Bytes
  -- `MetadataValue<Binary>::to_bytes` and `from_bytes`: base64
  pub to_bytes : Bytes → Option Bytes
  pub from_bytes : Bytes → Bytes
  -- `MetadataKey::<Ascii>::from_bytes` and `str::parse::<MetadataValue<Ascii>>`
  pub ascii_key : String → Option String
  pub parse_value : String → Option Bytes
  -- `MetadataMap::insert` and `insert_bin`
  pub insert : MetadataMap → String → Bytes → MetadataMap
  pub insert_bin : MetadataMap → String → Bytes → MetadataMap

abbrev pub key_of : KeyAndValue → String
key_of (ascii k v) = k
key_of (binary k v) = k

-- The entries of one key, in order.
unfoldable pub entries_of : String → MetadataMap → MetadataMap
entries_of k [] = []
entries_of k (e ∷ m) = if str_eq (key_of e) k then e ∷ entries_of k m else entries_of k m

-- What tonic documents of `insert` and `insert_bin`: the key's entries become the one given, and the
-- other keys keep theirs. Decoding inverts encoding.
pub record Documented (tonic : Tonic) : Type 0 where
  pub insert_self :
      (m : MetadataMap) (k : String) (v : Bytes)
      → entries_of k (tonic.insert m k v) ≡ ascii k v ∷ []
  pub insert_ne :
      (m : MetadataMap) (k j : String) (v : Bytes)
      → k ≢ j
      → entries_of j (tonic.insert m k v) ≡ entries_of j m
  pub insert_bin_self :
      (m : MetadataMap) (k : String) (v : Bytes)
      → entries_of k (tonic.insert_bin m k v) ≡ binary k v ∷ []
  pub insert_bin_ne :
      (m : MetadataMap) (k j : String) (v : Bytes)
      → k ≢ j
      → entries_of j (tonic.insert_bin m k v) ≡ entries_of j m
  pub to_bytes-from_bytes : (v : Bytes) → tonic.to_bytes (tonic.from_bytes v) ≡ some v
