-- ===== src/Metadata/Tests.antt =====
-- Metadata at concrete values.
use grpc_php_rs.Metadata.Sample.{sample_host, sample_tonic, sample-Documented}
use grpc_php_rs.Common.{refl, ◌≡◌, [], ◌∷◌, pos, All}
use grpc_php_rs.Host.{Table, nil, entry, arr, text, ArrayKey}
use grpc_php_rs.Error.Ensures.{Ensures}
use grpc_php_rs.Metadata.Map.{ascii, binary, MetadataMap, entries_of}
use grpc_php_rs.Metadata.{
  is_reserved_header, payload, send_values, legal_key, header_key_is_legal, all_chars, legal_char,
  array_key_to_string, metadata_to_php, parse_send_metadata, parse_metadata,
  status_metadata_for_php,
}
use grpc_php_rs.Metadata.Values.{values_of, values_of-metadata_to_php}
use grpc_php_rs.Metadata.Groups.{status_metadata_roundtrip}
use grpc_php_rs.Metadata.Sending.{
  HasLegalKey, IsBadMetadata, parse_send_metadata-Ensures, parse_metadata-eq-send,
}

abbrev two_values : MetadataMap
two_values =
    ascii "foo" (1 ∷ [])
    ∷ ascii "te" (9 ∷ [])
    ∷ binary "raw-bin" (7 ∷ [])
    ∷ ascii "foo" (2 ∷ [])
    ∷ []

abbrev outgoing : Table
outgoing = entry (ArrayKey.str "foo") (arr (entry (ArrayKey.long (pos 0)) (text (1 ∷ [])) nil)) nil

values_of-metadata_to_php_example :
    values_of "foo" (metadata_to_php two_values) ≡ (1 ∷ []) ∷ (2 ∷ []) ∷ []
unfolding is_reserved_header entries_of payload
values_of-metadata_to_php_example = values_of-metadata_to_php "foo" two_values

status_metadata_roundtrip_example :
    (values_of "grpc-status-details-bin"
        (metadata_to_php (status_metadata_for_php two_values (8 ∷ [])))
      ≡ (8 ∷ []) ∷ [])
    × (values_of "foo" (metadata_to_php (status_metadata_for_php two_values (8 ∷ [])))
        ≡ values_of "foo" (metadata_to_php two_values))
status_metadata_roundtrip_example =
    status_metadata_roundtrip sample-Documented two_values (8 ∷ []) "foo" (cc) (cc)

parse_send_metadata-Ensures_example :
    Ensures (All HasLegalKey) IsBadMetadata (parse_send_metadata outgoing)
parse_send_metadata-Ensures_example = parse_send_metadata-Ensures outgoing

parse_metadata-eq-send_example : parse_metadata outgoing ≡ ("foo", "text") ∷ []
unfolding parse_send_metadata send_values legal_key header_key_is_legal all_chars legal_char
    array_key_to_string
parse_metadata-eq-send_example = parse_metadata-eq-send outgoing ((refl, tt), tt) refl
