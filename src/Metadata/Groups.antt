-- ===== src/Metadata/Groups.antt =====
-- The shape of the collected metadata, and the rich status that is put back into it.
use grpc_php_rs.Common.{
  sym, ◌∙◌, false, ℕ, ◌≡◌, refl, ◌≢◌, String, List, [], ◌∷◌, ◌++◌, inl, inr, Option-cases, eq_iff,
  arith,
}
use grpc_php_rs.Host.{Bytes}
use grpc_php_rs.Metadata.Map.{MetadataMap, Tonic, key_of, Documented}
use grpc_php_rs.Metadata.{
  is_reserved_header, MetadataEntries, group, payload, collect_entry, collect_from,
  collect_metadata, drop_reserved, metadata_to_php, status_metadata_for_php,
}
use grpc_php_rs.Metadata.Values.{values_of-metadata_to_php, values_of}

abbrev pub IsFresh : String → MetadataEntries → Type 0
IsFresh k [] = Unit
IsFresh k ((j, values) ∷ entries) = (j ≢ k) × IsFresh k entries

-- No key twice, and no key without a value.
abbrev pub IsGrouped : MetadataEntries → Type 0
IsGrouped [] = Unit
IsGrouped ((k, values) ∷ entries) = (values ≢ []) × IsFresh k entries × IsGrouped entries

group-IsFresh :
    (k j : String) (v : Bytes) (es : MetadataEntries)
    → j ≢ k
    → IsFresh k es
    → IsFresh k (group j v es)
unfolding group
group-IsFresh k j v [] ne h = (ne, tt)
group-IsFresh k j v ((i, vs) ∷ es) ne h = ground (arith, group-IsFresh k j v es)

append_ne_nil : (vs : List Bytes) (v : Bytes) → vs ++ v ∷ [] ≢ []
append_ne_nil [] v e = cc
append_ne_nil (w ∷ vs) v e = cc

group-IsGrouped :
    (j : String) (v : Bytes) (es : MetadataEntries) → IsGrouped es → IsGrouped (group j v es)
unfolding group
group-IsGrouped j v [] h = ground arith
group-IsGrouped j v ((i, vs) ∷ es) h =
    ground
      (arith, eq_iff i j, append_ne_nil vs v, group-IsGrouped j v es h.2, group-IsFresh i j v es)

drop_reserved-IsFresh :
    (k : String) (es : MetadataEntries) → IsFresh k es → IsFresh k (drop_reserved es)
unfolding drop_reserved
drop_reserved-IsFresh k [] h = tt
drop_reserved-IsFresh k ((i, vs) ∷ es) h = ground (arith, drop_reserved-IsFresh k es h.1)

drop_reserved-IsGrouped : (es : MetadataEntries) → IsGrouped es → IsGrouped (drop_reserved es)
unfolding drop_reserved
drop_reserved-IsGrouped [] h = tt
drop_reserved-IsGrouped ((i, vs) ∷ es) h =
    ground (arith, drop_reserved-IsGrouped es h.2, drop_reserved-IsFresh i es h.1)

module _ ⦃tonic : Tonic⦄ where
  collect_from-IsGrouped :
      (es : MetadataEntries) (m : MetadataMap) → IsGrouped es → IsGrouped (collect_from es m)
  unfolding collect_from collect_entry
  collect_from-IsGrouped es [] h = h
  collect_from-IsGrouped es (e ∷ m) h =
      collect_from-IsGrouped (collect_entry e es) m (elim (Option-cases (payload e)) [
        | inl skipped ↦ ground arith
        | inr (v, shown) ↦ ground (arith, group-IsGrouped (key_of e) v es h)
      ])

  -- The array that PHP gets has no key twice, and no key with an empty list of values.
  pub metadata_to_php-IsGrouped : (m : MetadataMap) → IsGrouped (metadata_to_php m)
  unfolding metadata_to_php collect_metadata
  metadata_to_php-IsGrouped m =
      drop_reserved-IsGrouped (collect_metadata m) (collect_from-IsGrouped [] m tt)

details_not_reserved : is_reserved_header "grpc-status-details-bin" ≡ false
unfolding is_reserved_header
details_not_reserved = refl

module _ ⦃tonic : Tonic⦄ (documented : Documented tonic) (m : MetadataMap) (b : ℕ)
    (bs : Bytes) where
  abbrev restored : MetadataMap
  restored = tonic.insert_bin m "grpc-status-details-bin" (tonic.from_bytes (b ∷ bs))

  values_of-restored_self :
      values_of "grpc-status-details-bin" (metadata_to_php restored) ≡ (b ∷ bs) ∷ []
  unfolding payload
  values_of-restored_self =
      values_of-metadata_to_php "grpc-status-details-bin" restored
      ∙ rw
          (
            details_not_reserved,
            documented.insert_bin_self m "grpc-status-details-bin" (tonic.from_bytes (b ∷ bs)),
          )
          (ground (arith, documented.to_bytes-from_bytes (b ∷ bs)))

  values_of-restored_ne :
      (k : String)
      → k ≢ "grpc-status-details-bin"
      → values_of k (metadata_to_php restored) ≡ values_of k (metadata_to_php m)
  values_of-restored_ne k ne =
      values_of-metadata_to_php k restored
      ∙ rw
          (documented.insert_bin_ne m "grpc-status-details-bin" k (tonic.from_bytes (b ∷ bs))
            (λ e. ne (sym e)))
          (sym (values_of-metadata_to_php k m))

-- Of a status with details PHP gets exactly the details, byte for byte, under grpc-status-details-bin,
-- and under every other key what the status's own metadata gives.
pub status_metadata_roundtrip :
    ⦃tonic : Tonic⦄ (documented : Documented tonic) (m : MetadataMap) (details : Bytes) (k : String)
    → details ≢ []
    → k ≢ "grpc-status-details-bin"
    → (values_of "grpc-status-details-bin" (metadata_to_php (status_metadata_for_php m details))
        ≡ details ∷ [])
      × (values_of k (metadata_to_php (status_metadata_for_php m details))
          ≡ values_of k (metadata_to_php m))
unfolding status_metadata_for_php
status_metadata_roundtrip documented m [] k ne other = absurd (ne refl)
status_metadata_roundtrip documented m (b ∷ bs) k ne other =
    (values_of-restored_self documented m b bs, values_of-restored_ne documented m b bs k other)
