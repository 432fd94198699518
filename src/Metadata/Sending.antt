-- ===== src/Metadata/Sending.antt =====
-- The two parsers of the metadata that goes out: the strict one of a batch, and the lenient one of a
-- plugin's return value.
use grpc_php_rs.Common.{inr, inl, refl, arith, some, ◌≡◌, true, String, List, [], ◌∷◌, ◌++◌, All}
use grpc_php_rs.Host.{arr, as_array, ArrayKey, zend_str, text, Host, Table, nil, entry}
use grpc_php_rs.Error.Ensures.{Result-cases, Ensures, Ensures-bind, Ensures-ok_or, Ensures-if}
use grpc_php_rs.Error.{PhpException, ok, invalid_argument}
use grpc_php_rs.Metadata.{
  plugin_value, plugin_entry, array_key_to_string, parse_metadata, plugin_values,
  parse_send_metadata, legal_key, Pairs, header_key_is_legal, send_values,
}

All-append {κ} :
    {A : Type 0} (P : A → Type κ) (xs ys : List A) → All P xs → All P ys → All P (xs ++ ys)
All-append P [] ys hx hy = hy
All-append P (x ∷ xs) ys hx hy = (hx.0, All-append P xs ys hx.1 hy)

abbrev pub HasLegalKey : String × String → Type 0
HasLegalKey (k, v) = header_key_is_legal k ≡ true

module _ ⦃host : Host⦄ where
  abbrev bad_metadata : PhpException
  bad_metadata = invalid_argument "Bad metadata value given"

  abbrev pub IsBadMetadata : PhpException → Type 0
  IsBadMetadata x = x ≡ bad_metadata

  send_values-Ensures :
      (k : String) (t : Table)
      → header_key_is_legal k ≡ true
      → Ensures (All HasLegalKey) IsBadMetadata (send_values k t)
  unfolding send_values
  send_values-Ensures k nil h = tt
  send_values-Ensures k (entry i v t) h =
      Ensures-bind (λ s. Unit) (All HasLegalKey) IsBadMetadata _ _
        (Ensures-ok_or (λ s. Unit) IsBadMetadata (zend_str v) bad_metadata (λ s e. tt) refl)
        λ s u.
          Ensures-bind (All HasLegalKey) (All HasLegalKey) IsBadMetadata _ _
            (send_values-Ensures k t h) (λ l legal. (h, legal))

  legal_key-Ensures :
      (key : ArrayKey) → Ensures (λ k. header_key_is_legal k ≡ true) IsBadMetadata (legal_key key)
  unfolding legal_key
  legal_key-Ensures key =
      Ensures-bind (λ k. Unit) (λ k. header_key_is_legal k ≡ true) IsBadMetadata _ _
        (Ensures-ok_or (λ k. Unit) IsBadMetadata (array_key_to_string key) bad_metadata (λ k e. tt)
          refl)
        λ k u.
          Ensures-if (λ k. header_key_is_legal k ≡ true) IsBadMetadata (header_key_is_legal k) _ _
            (λ e. e) (λ e. refl)

  -- The strict parser either returns pairs whose keys are all legal header keys, or throws the one
  -- InvalidArgumentException "Bad metadata value given"; there is no third way, for any array.
  pub parse_send_metadata-Ensures :
      (t : Table) → Ensures (All HasLegalKey) IsBadMetadata (parse_send_metadata t)
  unfolding parse_send_metadata
  parse_send_metadata-Ensures nil = tt
  parse_send_metadata-Ensures (entry key val t) =
      Ensures-bind (λ k. header_key_is_legal k ≡ true) (All HasLegalKey) IsBadMetadata _ _
        (legal_key-Ensures key)
        λ k legal.
          Ensures-bind (λ v. Unit) (All HasLegalKey) IsBadMetadata _ _
            (Ensures-ok_or (λ v. Unit) IsBadMetadata (as_array val) bad_metadata (λ v e. tt) refl)
            λ values u.
              Ensures-bind (All HasLegalKey) (All HasLegalKey) IsBadMetadata _ _
                (send_values-Ensures k values legal)
                λ pairs ps.
                  Ensures-bind (All HasLegalKey) (All HasLegalKey) IsBadMetadata _ _
                    (parse_send_metadata-Ensures t)
                    (λ more ms. All-append HasLegalKey pairs more ps ms)

  -- Every string among the values is valid UTF-8, so that reading it with replacement is reading it.
  abbrev pub IsText : Table → Type 0
  IsText nil = Unit
  IsText (entry k (text s) t) = (host.from_utf8 s ≡ some (host.from_utf8_lossy s)) × IsText t
  IsText (entry k (arr vs) t) = IsText vs × IsText t
  IsText (entry k v t) = IsText t

  send_values-plugin :
      (k : String) (t : Table) {l : Pairs}
      → IsText t
      → send_values k t ≡ ok l
      → plugin_values k t ≡ l
  unfolding send_values plugin_values
  send_values-plugin k nil h e = cc
  send_values-plugin k (entry i (text s) t) h e = elim (Result-cases (send_values k t)) [
    | inl (more, p) ↦ ground (arith, send_values-plugin k t h.1 p)
    | inr (x, p) ↦ ground arith
  ]
  send_values-plugin k (entry i v t) h e = cc

  legal_key-ok :
      (key : ArrayKey) {k : String} → legal_key key ≡ ok k → array_key_to_string key ≡ some k
  unfolding legal_key
  legal_key-ok key e = ground arith

  plugin_entry-arr :
      (key : ArrayKey) (vs : Table) {k : String}
      → array_key_to_string key ≡ some k
      → plugin_entry key (arr vs) ≡ plugin_values k vs
  unfolding plugin_entry plugin_value
  plugin_entry-arr key vs e = ground arith

  -- What the strict parser accepts, with every string in UTF-8, the lenient one reads the same way.
  pub parse_metadata-eq-send :
      (t : Table) {l : Pairs} → IsText t → parse_send_metadata t ≡ ok l → parse_metadata t ≡ l
  unfolding parse_send_metadata parse_metadata
  parse_metadata-eq-send nil h e = cc
  parse_metadata-eq-send (entry key (arr vs) t) h e = elim (Result-cases (legal_key key)) [
    | inr (x, p) ↦ ground arith
    | inl (k, p) ↦ elim (Result-cases (send_values k vs)) [
      | inr (x, q) ↦ ground arith
      | inl (pairs, q) ↦ elim (Result-cases (parse_send_metadata t)) [
        | inr (x, r) ↦ ground arith
        | inl (more, r) ↦ ground (
          arith,
          send_values-plugin k vs h.0 q,
          parse_metadata-eq-send t h.1 r,
          plugin_entry-arr key vs (legal_key-ok key p),
        )
      ]
    ]
  ]
  parse_metadata-eq-send (entry key v t) h e = elim (Result-cases (legal_key key)) [
    | inr (x, p) ↦ ground arith
    | inl (k, p) ↦ ground arith
  ]
