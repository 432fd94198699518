-- ===== src/Call/Request/Headers.antt =====
-- What the headers of a request hold.
use Prim.Native.Nat.{max}
use grpc_php_rs.Common.{
  Option, and_then, Option-cases, str_eq, eq_iff, if◌then◌else◌, true, inl, inr, Bool-cases, ltb_ℤ,
  leb_ℤ, ◌&&◌, pos_part, saturating_sub, ◌∙◌, sym, ap, ◌⊎◌, ℕ, ◌≡◌, refl, [], ◌∷◌, ◌++◌, none, some,
  String, ℤ, pos, ◌<ℤ◌, ◌≤ℤ◌, ◌-ℤ◌, i64_max, IsI64, arith,
}
use grpc_php_rs.Host.{Bytes}
use grpc_php_rs.Metadata.Map.{ascii, MetadataMap, Tonic, entries_of, Documented}
use grpc_php_rs.Metadata.{Pairs}
use grpc_php_rs.Call.Request.{insert_pair, apply_metadata, request_timeout}

pub apply_metadata-append :
    ⦃tonic : Tonic⦄ (ps qs : Pairs) (m : MetadataMap)
    → apply_metadata (ps ++ qs) m ≡ apply_metadata qs (apply_metadata ps m)
unfolding apply_metadata
apply_metadata-append [] qs m = refl
apply_metadata-append (p ∷ ps) qs m = apply_metadata-append ps qs (insert_pair p m)

insert_pair-some :
    ⦃tonic : Tonic⦄ (k v name : String) (b : Bytes) (m : MetadataMap)
    → tonic.ascii_key k ≡ some name
    → tonic.parse_value v ≡ some b
    → insert_pair (k, v) m ≡ tonic.insert m name b
unfolding insert_pair
insert_pair-some k v name b m p q = ground arith

insert_pair-none :
    ⦃tonic : Tonic⦄ (k v : String) (m : MetadataMap)
    → tonic.ascii_key k ≡ none
    → insert_pair (k, v) m ≡ m
unfolding insert_pair
insert_pair-none k v m p = ground arith

-- Of several values for one key only the last is sent, if tonic takes the key and the value: after it the request holds that value and no
-- other under the key's name, whatever pairs came before and whatever the request held.
pub last_value_wins :
    ⦃tonic : Tonic⦄ (documented : Documented tonic) (ps : Pairs) (k v name : String) (b : Bytes)
    (m : MetadataMap)
    → tonic.ascii_key k ≡ some name
    → tonic.parse_value v ≡ some b
    → entries_of name (apply_metadata (ps ++ (k, v) ∷ []) m) ≡ ascii name b ∷ []
unfolding apply_metadata
last_value_wins documented ps k v name b m p q =
    ap (entries_of name) (
      apply_metadata-append ps ((k, v) ∷ []) m
      ∙ insert_pair-some k v name b (apply_metadata ps m) p q)
    ∙ documented.insert_self (apply_metadata ps m) name b

-- The value that a pair gives a header, if tonic takes the pair and its key is that header.
abbrev value_for : ⦃tonic : Tonic⦄ → String → String × String → Option Bytes
value_for ⦃tonic⦄ name (k, v) =
    and_then (tonic.ascii_key k) λ key. if str_eq key name then tonic.parse_value v else none

-- The last of the values that the pairs give a header.
abbrev pub last_for : ⦃tonic : Tonic⦄ → String → Pairs → Option Bytes
last_for name [] = none
last_for name (p ∷ ps) = elim (last_for name ps) [ some b ↦ some b | none ↦ value_for name p ]

-- The entries of a header whose last value is this one; without a value they are as they were.
abbrev pub entries_for : String → Option Bytes → MetadataMap → MetadataMap
entries_for name (some b) old = ascii name b ∷ []
entries_for name none old = old

entries_of-insert_pair :
    ⦃tonic : Tonic⦄ (documented : Documented tonic) (name : String) (p : String × String)
    (m : MetadataMap)
    → entries_of name (insert_pair p m) ≡ entries_for name (value_for name p) (entries_of name m)
unfolding insert_pair
entries_of-insert_pair ⦃tonic⦄ documented name (k, v) m = elim (Option-cases (tonic.ascii_key k)) [
  | inl refused ↦ rw (refused, insert_pair) refl
  | inr (key, e) ↦ elim (Option-cases (tonic.parse_value v)) [
    | inl refused ↦ ground (arith, e, refused)
    | inr (b, q) ↦ elim (Bool-cases (str_eq key name)) [
      | inl same ↦
          let eq : key ≡ name = (eq_iff key name).0 same in
          ground (arith, e, q, same, eq, documented.insert_self m key b)
      | inr other ↦ ground (
        arith,
        e,
        q,
        other,
        documented.insert_ne m key name b (λ eq. cc (other, (eq_iff key name).1 eq)),
      )
    ]
  ]
]

-- What a request holds of each header is the last value that its pairs give it.
pub entries_of-apply_metadata :
    ⦃tonic : Tonic⦄ (documented : Documented tonic) (name : String) (ps : Pairs) (m : MetadataMap)
    → entries_of name (apply_metadata ps m)
      ≡ entries_for name (last_for name ps) (entries_of name m)
unfolding apply_metadata
entries_of-apply_metadata documented name [] m = refl
entries_of-apply_metadata documented name (p ∷ ps) m = elim (Option-cases (last_for name ps)) [
  | inl e ↦ ground (
    arith,
    e,
    entries_of-apply_metadata documented name ps (insert_pair p m),
    entries_of-insert_pair documented name p m,
  )
  | inr (b, e) ↦ ground (arith, e, entries_of-apply_metadata documented name ps (insert_pair p m))
]

-- A pair whose key tonic refuses as an ASCII key (a key that ends in -bin) leaves no trace in the
-- request, wherever it stands.
refused_key_dropped :
    ⦃tonic : Tonic⦄ (ps qs : Pairs) (k v : String) (m : MetadataMap)
    → tonic.ascii_key k ≡ none
    → apply_metadata (ps ++ (k, v) ∷ qs) m ≡ apply_metadata (ps ++ qs) m
unfolding apply_metadata
refused_key_dropped ps qs k v m p =
    apply_metadata-append ps ((k, v) ∷ qs) m
    ∙ ap (apply_metadata qs) (insert_pair-none k v (apply_metadata ps m) p)
    ∙ sym (apply_metadata-append ps qs m)

-- A request has no timeout where the deadline is not positive or is infinite. Otherwise its timeout
-- is the time that is left at the clock's reading, and one microsecond where none is left.
pub request_timeout_exact :
    (d now : ℤ)
    → IsI64 d
    → pos 0 ≤ℤ now
    → ((request_timeout d now ≡ none) × ((d ≤ℤ pos 0) ⊎ (d ≡ i64_max)))
      ⊎ ((t : ℕ) × (request_timeout d now ≡ some t)
          × (((now <ℤ d) × (pos t ≡ d -ℤ now)) ⊎ ((d ≤ℤ now) × (t ≡ 1))))
unfolding request_timeout ◌-ℤ◌ saturating_sub
request_timeout_exact d now h k = elim (Bool-cases (ltb_ℤ d i64_max && ltb_ℤ (pos 0) d)) [
  | inr unset ↦ elim (Bool-cases (ltb_ℤ (pos 0) d)) [
    | inl after ↦ inl (ground arith, inr (ground arith))
    | inr before ↦ inl (ground arith, inl (ground arith))
  ]
  | inl finite ↦ inr (max 1 (pos_part (saturating_sub d now)), ground arith, left finite)
]
  where
    left :
        (ltb_ℤ d i64_max && ltb_ℤ (pos 0) d) ≡ true
        → ((now <ℤ d) × (pos (max 1 (pos_part (saturating_sub d now))) ≡ d -ℤ now))
          ⊎ ((d ≤ℤ now) × (max 1 (pos_part (saturating_sub d now)) ≡ 1))
    left finite = elim (Bool-cases (leb_ℤ d now)) [
      | inl over ↦ inr (ground arith, ground arith)
      | inr ahead ↦ inl (ground arith, ground arith)
    ]
