-- ===== src/Metadata/Sample.antt =====
-- A host and a metadata map for concrete runs: the map's operations on lists, values unencoded.
use grpc_php_rs.Common.{
  arith, eq_iff, eq_refl, refl, ◌≡◌, ◌≢◌, String, [], ◌∷◌, none, some, str_eq, pos, true,
  if◌then◌else◌,
}
use grpc_php_rs.Host.{Host}
use grpc_php_rs.Metadata.Map.{ascii, binary, MetadataMap, Tonic, key_of, entries_of, Documented}

pub remove_key : String → MetadataMap → MetadataMap
remove_key k [] = []
remove_key k (e ∷ m) = if str_eq (key_of e) k then remove_key k m else e ∷ remove_key k m

remove_key_self : (k : String) (m : MetadataMap) → entries_of k (remove_key k m) ≡ []
unfolding remove_key entries_of
remove_key_self k [] = refl
remove_key_self k (e ∷ m) = ground (arith, remove_key_self k m)

remove_key_ne :
    (k j : String) (m : MetadataMap) → k ≢ j → entries_of j (remove_key k m) ≡ entries_of j m
unfolding remove_key entries_of
remove_key_ne k j [] ne = refl
remove_key_ne k j (e ∷ m) ne =
    ground (arith, remove_key_ne k j m ne, eq_iff (key_of e) k, eq_iff (key_of e) j)

instance abbrev pub sample_host : Host
sample_host = record {
  try_find = some;
  f64_as_i64 = λ d. pos 0;
  is_callable = λ v. true;
  from_utf8 = λ b. some "text";
  from_utf8_lossy = λ b. "text";
  zend_string_to_string = λ b. "text";
}

instance abbrev pub sample_tonic : Tonic
sample_tonic = record {
  to_str = some;
  to_bytes = some;
  from_bytes = λ b. b;
  ascii_key = λ k. if str_eq k "trace-bin" then none else some k;
  parse_value = λ v. some (1 ∷ []);
  insert = λ m k v. ascii k v ∷ remove_key k m;
  insert_bin = λ m k v. binary k v ∷ remove_key k m;
}

pub sample-Documented : Documented sample_tonic
unfolding entries_of
sample-Documented = record {
  insert_self = λ m k v. ground (arith, eq_refl k, remove_key_self k m);
  insert_ne = λ m k j v ne. ground (arith, eq_iff k j, remove_key_ne k j m ne);
  insert_bin_self = λ m k v. ground (arith, eq_refl k, remove_key_self k m);
  insert_bin_ne = λ m k j v ne. ground (arith, eq_iff k j, remove_key_ne k j m ne);
  to_bytes-from_bytes = λ v. refl;
}
