-- ===== src/Error/Ensures.antt =====
-- What a result is, whichever way it ends: a predicate of its value, or of its error.
use grpc_php_rs.Error.{Result, ok, err, ok_or, ◌>>=◌}
use grpc_php_rs.Common.{
  Option, none, some, Bool, true, false, if◌then◌else◌, ◌≡◌, refl, ◌⊎◌, inl, inr,
}

abbrev pub Ensures {ℓ} :
    {E : Type 0} {A : Type ℓ} → (A → Type 0) → (E → Type 0) → Result E A → Type 0
Ensures P Q (ok a) = P a
Ensures P Q (err e) = Q e

module _ {ℓ κ} {E : Type 0} {A : Type ℓ} {B : Type κ} where
  pub Ensures-bind :
      (P : A → Type 0) (R : B → Type 0) (Q : E → Type 0) (m : Result E A) (f : A → Result E B)
      → Ensures P Q m
      → ((a : A) → P a → Ensures R Q (f a))
      → Ensures R Q (m >>= f)
  Ensures-bind P R Q (ok a) f h k = k a h
  Ensures-bind P R Q (err e) f h k = h

module _ {ℓ} {E : Type 0} {A : Type ℓ} where
  pub Ensures-ok_or :
      (P : A → Type 0) (Q : E → Type 0) (o : Option A) (e : E)
      → ((a : A) → o ≡ some a → P a)
      → Q e
      → Ensures P Q (ok_or o e)
  Ensures-ok_or P Q none e h q = q
  Ensures-ok_or P Q (some a) e h q = h a refl

  pub Ensures-if :
      (P : A → Type 0) (Q : E → Type 0) (b : Bool) (m n : Result E A)
      → (b ≡ true → Ensures P Q m)
      → (b ≡ false → Ensures P Q n)
      → Ensures P Q (if b then m else n)
  Ensures-if P Q true m n h k = h refl
  Ensures-if P Q false m n h k = k refl

  -- To split on a computed result and keep the equation.
  pub Result-cases : (r : Result E A) → ((a : A) × (r ≡ ok a)) ⊎ ((e : E) × (r ≡ err e))
  Result-cases (ok a) = inl (a, refl)
  Result-cases (err e) = inr (e, refl)

module _ {ℓ κ} {E : Type 0} {A : Type ℓ} {B : Type κ} where
  -- A chain that returns a value went through its first part.
  pub bind_returned :
      (m : Result E A) (f : A → Result E B) {b : B}
      → (m >>= f) ≡ ok b
      → (a : A) × (m ≡ ok a) × (f a ≡ ok b)
  bind_returned (ok a) f e = (a, refl, e)
  bind_returned (err x) f e = absurd (cc)
