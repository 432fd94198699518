-- ===== src/Timeval/Arith.antt =====
-- The arithmetic and the order of Timeval.
use grpc_php_rs.Common.{
  ◌≡◌, ◌≢◌, ◌↔◌, ◌⊎◌, true, pos, negsuc, ◌≤ℤ◌, ◌<ℤ◌, i64_max, i64_min, IsI64, abs_ℤ, ◌+ℤ◌, ◌-ℤ◌,
  arith, ℤ, inl, inr, Bool-cases, ltb_ℤ, saturate, saturating_add, saturating_sub,
}
use grpc_php_rs.Timeval.{is_infinite, Timeval, similar, compare, add, subtract}

-- The value of the type i64 that is nearest to an exact result.
abbrev pub Nearest : ℤ → ℤ → Type 0
Nearest exact got =
    (IsI64 exact × (got ≡ exact))
    ⊎ (((i64_max <ℤ exact) × (got ≡ i64_max)) ⊎ ((exact <ℤ i64_min) × (got ≡ i64_min)))

nearest : (exact : ℤ) {got : ℤ} → got ≡ saturate exact → Nearest exact got
unfolding saturate
nearest exact e = elim (Bool-cases (ltb_ℤ i64_max exact)) [
  | inl over ↦ inr (inl (ground arith, ground arith))
  | inr below ↦ elim (Bool-cases (ltb_ℤ exact i64_min)) [
    | inl under ↦ inr (inr (ground arith, ground arith))
    | inr within ↦ inl (ground arith, ground arith)
  ]
]

-- One of the two infinities.
abbrev pub IsInfinite : ℤ → Type 0
IsInfinite usec = (usec ≡ i64_max) ⊎ (usec ≡ i64_min)

-- An infinite receiver is the sum and the difference itself. Otherwise the sum and the difference are
-- those of the integers if that is an i64, and else the end of the range on whose side it lies; and the
-- result is a span exactly if both operands are.
pub add-subtract_exact :
    (a b : Timeval)
    → (IsInfinite a.usec × (add a b ≡ a) × (subtract a b ≡ a))
      ⊎ ((¬ IsInfinite a.usec)
          × Nearest (a.usec +ℤ b.usec) (add a b).usec
          × Nearest (a.usec -ℤ b.usec) (subtract a b).usec
          × (((add a b).is_span ≡ true) ↔ ((a.is_span ≡ true) × (b.is_span ≡ true)))
          × (((subtract a b).is_span ≡ true) ↔ ((a.is_span ≡ true) × (b.is_span ≡ true))))
unfolding add subtract saturating_add saturating_sub saturate
add-subtract_exact a b = elim (Bool-cases (is_infinite a.usec)) [
  | inl infinite ↦
      inl (ground (arith, infinite), ground (arith, infinite), ground (arith, infinite))
  | inr finite ↦ inr (
    λ h. ground (arith, finite, h),
    nearest (a.usec +ℤ b.usec) (ground (arith, finite)),
    nearest (a.usec -ℤ b.usec) (ground (arith, finite)),
    ground (arith, finite),
    ground (arith, finite),
  )
]

-- Where neither the receiver nor the sum is one of the two infinities, and the sum is an i64, taking
-- the summand away again gives the receiver; its kind too, if the summand is a span.
pub subtract-add :
    (a b : Timeval)
    → IsI64 a.usec
    → i64_min <ℤ (a.usec +ℤ b.usec)
    → (a.usec +ℤ b.usec) <ℤ i64_max
    → a.usec ≢ i64_max
    → a.usec ≢ i64_min
    → b.is_span ≡ true
    → subtract (add a b) b ≡ a
unfolding add subtract ◌+ℤ◌
subtract-add a b ha lo hi ne ne' s = ground arith

-- `compare` is the order of the microseconds: -1, 0 and 1 are exactly less, equal and greater, and
-- swapping the arguments negates the answer.
pub compare_exact :
    (a b : Timeval)
    → ((compare a b ≡ negsuc 0) ↔ (a.usec <ℤ b.usec))
      × ((compare a b ≡ pos 0) ↔ (a.usec ≡ b.usec))
      × ((compare a b ≡ pos 1) ↔ (b.usec <ℤ a.usec))
      × (compare b a ≡ pos 0 -ℤ compare a b)
unfolding compare ◌-ℤ◌
compare_exact a b = ground arith

-- On i64 values `similar` holds exactly if the true distance is at most the true size of the
-- threshold, where either counts as i64::MAX if it is larger.
pub similar_exact :
    (a b t : Timeval)
    → IsI64 t.usec
    → (similar a b t ≡ true)
      ↔ ((abs_ℤ (a.usec -ℤ b.usec) ≤ℤ abs_ℤ t.usec) ⊎ (i64_max ≤ℤ abs_ℤ t.usec))
unfolding similar ◌-ℤ◌
similar_exact a b t h = ground arith
