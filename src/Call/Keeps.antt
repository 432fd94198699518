-- ===== src/Call/Keeps.antt =====
-- What a batch keeps: rules for the actions of a call, operation by operation.
pub mod Active
pub mod Returns
pub mod Batch
pub mod Routes
use grpc_php_rs.Common.{Bool, true, false, if◌then◌else◌, inl, inr}
use grpc_php_rs.Error.{PhpResult, ok, err}
use grpc_php_rs.Error.Ensures.{Result-cases}
use grpc_php_rs.Runtime.{pump}
use grpc_php_rs.Channel.Connectivity.{write_states}
use grpc_php_rs.Call.State.{Call, CallState, Environment, Action, drive, lift, gets, ◌>>=◌, ◌>>◌}

-- An action that keeps a property of the state, whether it throws or not.
abbrev pub Keeps : (P : CallState → Type 0) {A : Type 0} → Action A → Type 0
Keeps P m = (s : CallState) → P s → P (m s).1

module _ (P : CallState → Type 0) {A : Type 0} where
  pub Keeps-if : (b : Bool) (m n : Action A) → Keeps P m → Keeps P n → Keeps P (if b then m else n)
  Keeps-if true m n km kn = km
  Keeps-if false m n km kn = kn

module _ (P : CallState → Type 0) {A B : Type 0} where
  Keeps-continue :
      (r : PhpResult A) (f : A → Action B) → ((a : A) → Keeps P (f a)) → Keeps P (lift r >>= f)
  unfolding ◌>>=◌
  Keeps-continue (ok a) f kf s p = kf a s p
  Keeps-continue (err e) f kf s p = p

  pub Keeps-bind :
      (m : Action A) (f : A → Action B) → Keeps P m → ((a : A) → Keeps P (f a)) → Keeps P (m >>= f)
  unfolding ◌>>=◌
  Keeps-bind m f km kf s p = Keeps-continue (m s).0 f kf (m s).1 (km s p)

  pub Keeps-then : (m : Action A) (n : Action B) → Keeps P m → Keeps P n → Keeps P (m >> n)
  unfolding ◌>>◌
  Keeps-then m n km kn = Keeps-bind m (λ a. n) km (λ a. kn)

  -- A read of the call, which the state says.
  pub Keeps-read :
      (f : Call → A) (g : A → Action B)
      → ((s : CallState) → P s → P (g (f s.call) s).1)
      → Keeps P (gets f >>= g)
  unfolding ◌>>=◌
  Keeps-read f g k = k

-- What other tasks write while `pump` drives the runtime.
pub drive-Keeps :
    (P : CallState → Type 0) (env : Environment)
    → ((s : CallState) → P s → P (record s { world = write_states env.pump_writes s.world }))
    → Keeps P (drive env)
drive-Keeps P env k s p = elim (Result-cases (pump env.runtime)) [
  | inl (u, e) ↦ rw (e, drive) (k s p)
  | inr (x, e) ↦ rw (e, drive) p
]
