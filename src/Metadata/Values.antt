-- ===== src/Metadata/Values.antt =====
-- How the metadata that PHP gets reads, key by key, against what the map holds.
use mathlib.Core.List.{append_assoc, append-nil}
use grpc_php_rs.Common.{
  ◌≡◌, refl, ◌∙◌, sym, ap, String, List, [], ◌∷◌, ◌++◌, none, some, str_eq, inl, inr, Option-cases,
  eq_iff, if◌then◌else◌, arith,
}
use grpc_php_rs.Host.{Bytes}
use grpc_php_rs.Metadata.Map.{key_of, KeyAndValue, MetadataMap, Tonic, entries_of}
use grpc_php_rs.Metadata.{
  MetadataEntries, group, payload, collect_entry, collect_from, collect_metadata,
  is_reserved_header, drop_reserved, metadata_to_php,
}

-- The values under a key of the array; none where the key is not there.
abbrev pub values_of : String → MetadataEntries → List Bytes
values_of k [] = []
values_of k ((j, values) ∷ entries) = if str_eq j k then values else values_of k entries

values_of-group :
    (k j : String) (v : Bytes) (es : MetadataEntries)
    → values_of k (group j v es) ≡ (if str_eq j k then values_of k es ++ v ∷ [] else values_of k es)
unfolding group
values_of-group k j v [] = refl
values_of-group k j v ((i, vs) ∷ es) =
    ground (arith, eq_iff i j, eq_iff i k, eq_iff j k, values_of-group k j v es)

module _ ⦃tonic : Tonic⦄ where
  -- The decoded values among some entries, in order; one that does not decode is left out.
  abbrev decoded : MetadataMap → List Bytes
  decoded [] = []
  decoded (e ∷ map) = elim (payload e) [ some v ↦ v ∷ decoded map | none ↦ decoded map ]

  values_of-collect_entry :
      (k : String) (e : KeyAndValue) (es : MetadataEntries) (m : MetadataMap)
      → values_of k (collect_entry e es) ++ decoded (entries_of k m)
        ≡ values_of k es ++ decoded (entries_of k (e ∷ m))
  unfolding collect_entry entries_of
  values_of-collect_entry k e es m = elim (Option-cases (payload e)) [
    | inl skipped ↦ ground arith
    | inr (v, shown) ↦ ground (
      arith,
      values_of-group k (key_of e) v es,
      append_assoc (values_of k es) (v ∷ []) (decoded (entries_of k m)),
    )
  ]

  values_of-collect_from :
      (k : String) (es : MetadataEntries) (m : MetadataMap)
      → values_of k (collect_from es m) ≡ values_of k es ++ decoded (entries_of k m)
  unfolding collect_from
  values_of-collect_from k es [] = unfold entries_of in sym (append-nil (values_of k es))
  values_of-collect_from k es (e ∷ m) =
      values_of-collect_from k (collect_entry e es) m ∙ values_of-collect_entry k e es m

  values_of-drop_reserved :
      (k : String) (es : MetadataEntries)
      → values_of k (drop_reserved es) ≡ (if is_reserved_header k then [] else values_of k es)
  unfolding drop_reserved
  values_of-drop_reserved k [] = ground arith
  values_of-drop_reserved k ((j, vs) ∷ es) =
      ground (arith, eq_iff j k, values_of-drop_reserved k es)

  -- Under a reserved key PHP gets nothing; under any other key it gets the values that the map holds
  -- for it, decoded, each once and in the map's order, less those that do not decode.
  pub values_of-metadata_to_php :
      (k : String) (m : MetadataMap)
      → values_of k (metadata_to_php m)
        ≡ (if is_reserved_header k then [] else decoded (entries_of k m))
  unfolding metadata_to_php
  values_of-metadata_to_php k m =
      values_of-drop_reserved k (collect_metadata m)
      ∙ ap (λ (vs : List Bytes). if is_reserved_header k then [] else vs)
          (unfold collect_metadata in values_of-collect_from k [] m)
