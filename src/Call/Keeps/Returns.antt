-- ===== src/Call/Keeps/Returns.antt =====
-- What an action returns, where it returns: rules for the actions of a call.
use grpc_php_rs.Common.{◌≡◌, refl, Bool, true, false, if◌then◌else◌}
use grpc_php_rs.Error.{PhpResult, ok, err}
use grpc_php_rs.Error.Ensures.{Ensures}
use grpc_php_rs.Call.State.{Action, lift, ◌>>=◌, ◌>>◌}

-- Every value that the action returns has the property; it may throw.
abbrev pub Returns : {A : Type 0} → (A → Type 0) → Action A → Type 0
Returns Q m = (s : _) → Ensures Q (λ e. Unit) (m s).0

module _ {A : Type 0} (Q : A → Type 0) where
  pub Returns-if :
      (b : Bool) (m n : Action A) → Returns Q m → Returns Q n → Returns Q (if b then m else n)
  Returns-if true m n km kn = km
  Returns-if false m n km kn = kn

  pub Returns-when :
      (b : Bool) (m n : Action A)
      → (b ≡ true → Returns Q m)
      → Returns Q n
      → Returns Q (if b then m else n)
  Returns-when true m n km kn = km refl
  Returns-when false m n km kn = kn

module _ {A B : Type 0} (R : A → Type 0) (Q : B → Type 0) where
  Returns-continue :
      (r : PhpResult A) (f : A → Action B)
      → Ensures R (λ e. Unit) r
      → ((a : A) → R a → Returns Q (f a))
      → Returns Q (lift r >>= f)
  unfolding ◌>>=◌
  Returns-continue (ok a) f p kf s = kf a p s
  Returns-continue (err e) f p kf s = tt

  pub Returns-bind :
      (m : Action A) (f : A → Action B)
      → Returns R m
      → ((a : A) → R a → Returns Q (f a))
      → Returns Q (m >>= f)
  unfolding ◌>>=◌
  Returns-bind m f km kf s = Returns-continue (m s).0 f (km s) kf (m s).1

module _ {A : Type 0} where
  pub Returns-any : (m : Action A) → Returns (λ a. Unit) m
  Returns-any m s = elim (m s).0 as (λ r. Ensures (λ a. Unit) (λ e. Unit) r) [
    | ok a ↦ tt
    | err e ↦ tt
  ]

module _ {A B : Type 0} (Q : B → Type 0) where
  -- Where only the last action matters.
  pub Returns-after :
      (m : Action A) (f : A → Action B) → ((a : A) → Returns Q (f a)) → Returns Q (m >>= f)
  Returns-after m f k = Returns-bind (λ a. Unit) Q m f (Returns-any m) (λ a u. k a)

  pub Returns-then : (m : Action A) (n : Action B) → Returns Q n → Returns Q (m >> n)
  unfolding ◌>>◌
  Returns-then m n k = Returns-after m (λ a. n) (λ a. k)
