-- ===== src/Metadata.antt =====
-- src/call.rs: metadata between PHP arrays and tonic's maps.
pub mod Map
pub mod Number
pub mod Values
pub mod Groups
pub mod Sending
pub mod Sample
mod Tests
use Prim.Native.Char.{Char}
use grpc_php_rs.Common.{
  Bool, true, not, ◌&&◌, ◌||◌, String, code, List, [], ◌∷◌, ◌++◌, Option, none, some, ℤ, leb, ◌==◌,
  str_eq, concat, and_then, if◌then◌else◌,
}
use grpc_php_rs.Host.{Host, Bytes, ArrayKey, Zval, Table, nil, entry, zend_str, as_array, as_string}
use grpc_php_rs.Error.{
  GrpcError, invalid_arg, Result, PhpResult, ok, err, ok_or, invalid_argument, ◌>>=◌,
}
use Map.{KeyAndValue, ascii, binary, MetadataMap, Tonic}
use Number.{parse_i64}

module _ ⦃host : Host⦄ where
  pub array_key_to_string : ArrayKey → Option String
  array_key_to_string (ArrayKey.string s) = some s
  array_key_to_string (ArrayKey.str s) = some s
  array_key_to_string (ArrayKey.zend_string zs) = host.from_utf8 zs
  array_key_to_string (ArrayKey.long n) = none

  unfoldable pub array_key_to_long : ArrayKey → Result GrpcError ℤ
  unfolding parse_i64
  array_key_to_long (ArrayKey.long n) = ok n
  array_key_to_long (ArrayKey.string s) =
      ok_or (parse_i64 s) (invalid_arg (concat "invalid op key: " s))
  array_key_to_long (ArrayKey.str s) =
      ok_or (parse_i64 s) (invalid_arg (concat "invalid op key: " s))
  array_key_to_long (ArrayKey.zend_string zs) =
      ok_or (and_then (host.from_utf8 zs) parse_i64) (invalid_arg "invalid op key")

-- A character beyond ASCII has only bytes above 127, so the test of the characters is that of the
-- bytes.
pub legal_char : Char → Bool
legal_char c =
    (leb b'a' (code c) && leb (code c) b'z')
    || ((leb b'0' (code c) && leb (code c) b'9')
        || ((code c == b'-') || ((code c == b'_') || (code c == b'.'))))

pub all_chars : (Char → Bool) → String → Bool
all_chars p String.[] = true
all_chars p (String.◌∷◌ c s) = p c && all_chars p s

pub header_key_is_legal : String → Bool
unfolding legal_char all_chars
header_key_is_legal key = not (str_eq key "") && all_chars legal_char key

-- The pairs of metadata that are handed to a request.
abbrev pub Pairs : Type 0
Pairs = List (String × String)

module _ ⦃host : Host⦄ where
  -- The values of one key; each must be a string, and its bytes are read as UTF-8 with replacement.
  pub send_values : String → Table → PhpResult Pairs
  send_values k nil = ok []
  send_values k (entry i v rest) =
      ok_or (zend_str v) (invalid_argument "Bad metadata value given") >>= λ s.
      send_values k rest >>= λ more. ok ((k, host.from_utf8_lossy s) ∷ more)

  legal_key : ArrayKey → PhpResult String
  legal_key key =
      ok_or (array_key_to_string key) (invalid_argument "Bad metadata value given") >>= λ k.
      if header_key_is_legal k then ok k else err (invalid_argument "Bad metadata value given")

  pub parse_send_metadata : Table → PhpResult Pairs
  parse_send_metadata nil = ok []
  parse_send_metadata (entry key val rest) = legal_key key >>= λ k.
      ok_or (as_array val) (invalid_argument "Bad metadata value given") >>= λ values.
      send_values k values >>= λ pairs. parse_send_metadata rest >>= λ more. ok (pairs ++ more)

  -- The values of one key that are strings in UTF-8.
  pub plugin_values : String → Table → Pairs
  plugin_values k nil = []
  plugin_values k (entry i v rest) = elim (as_string v) [
    | some s ↦ (k, s) ∷ plugin_values k rest
    | none ↦ plugin_values k rest
  ]

  pub plugin_value : String → Zval → Pairs
  plugin_value k val = elim (as_array val) [
    | some values ↦ plugin_values k values
    | none ↦ elim (as_string val) [ some s ↦ (k, s) ∷ [] | none ↦ [] ]
  ]

  plugin_entry : ArrayKey → Zval → Pairs
  plugin_entry key val = elim (array_key_to_string key) [ some k ↦ plugin_value k val | none ↦ [] ]

  -- The lenient parser, for what a credentials plugin returns.
  pub parse_metadata : Table → Pairs
  parse_metadata nil = []
  parse_metadata (entry key val rest) = plugin_entry key val ++ parse_metadata rest

-- `MetadataEntries`: each key once, with its values.
abbrev pub MetadataEntries : Type 0
MetadataEntries = List (String × List Bytes)

-- Adds a value to its key's entry, or a new entry at the end.
pub group : String → Bytes → MetadataEntries → MetadataEntries
group key bytes [] = (key, bytes ∷ []) ∷ []
group key bytes ((k, values) ∷ entries) =
    if str_eq k key
    then (k, values ++ bytes ∷ []) ∷ entries
    else (k, values) ∷ group key bytes entries

module _ ⦃tonic : Tonic⦄ where
  -- The value that PHP sees of an entry; `none` where it is skipped.
  pub payload : KeyAndValue → Option Bytes
  payload (ascii key value) = tonic.to_str value
  payload (binary key value) = tonic.to_bytes value

  pub collect_entry : KeyAndValue → MetadataEntries → MetadataEntries
  unfolding payload group
  collect_entry e entries = elim (payload e) [
    | some bytes ↦ group (Map.key_of e) bytes entries
    | none ↦ entries
  ]

  pub collect_from : MetadataEntries → MetadataMap → MetadataEntries
  unfolding collect_entry
  collect_from entries [] = entries
  collect_from entries (e ∷ map) = collect_from (collect_entry e entries) map

  pub collect_metadata : MetadataMap → MetadataEntries
  unfolding collect_from
  collect_metadata map = collect_from [] map

pub is_reserved_header : String → Bool
is_reserved_header key =
    str_eq key "content-type"
    || (str_eq key "grpc-status"
        || (str_eq key "grpc-message"
            || (str_eq key "grpc-encoding" || str_eq key "grpc-accept-encoding")))

pub drop_reserved : MetadataEntries → MetadataEntries
drop_reserved [] = []
drop_reserved ((key, values) ∷ entries) =
    if is_reserved_header key then drop_reserved entries else (key, values) ∷ drop_reserved entries

module _ ⦃tonic : Tonic⦄ where
  -- The array that PHP gets, key by key in order.
  pub metadata_to_php : MetadataMap → MetadataEntries
  unfolding collect_metadata drop_reserved
  metadata_to_php map = drop_reserved (collect_metadata map)

  -- Of a status's metadata and details.
  unfoldable pub status_metadata_for_php : MetadataMap → Bytes → MetadataMap
  status_metadata_for_php metadata [] = metadata
  status_metadata_for_php metadata (b ∷ bs) =
      tonic.insert_bin metadata "grpc-status-details-bin" (tonic.from_bytes (b ∷ bs))
