-- ===== src/Stream/Receive.antt =====
-- Reading from the channels of a stream keeps what holds of them.
use grpc_php_rs.Common.{
  ℕ, zero, suc, refl, ◌≡◌, subst, List, [], ◌∷◌, ℤ, is_some, inl, inr, Bool-cases, All,
}
use grpc_php_rs.Metadata.Map.{Tonic}
use grpc_php_rs.Stream.{Item, ActiveStream, step}
use grpc_php_rs.Stream.Reads.{receive_from, receive, await_meta}
use grpc_php_rs.Stream.Coherence.{Coherent, IsMessage, step-Coherent}

module _ ⦃tonic : Tonic⦄ where
  receive_from-Coherent :
      (f : ℕ) (buffer : List Item) (d : ℤ) (s : ActiveStream)
      → s.buffer ≡ buffer
      → Coherent s
      → Coherent (receive_from f buffer d s).1
  unfolding receive_from
  receive_from-Coherent f (item ∷ rest) d s e c = record {
    unreported = c.unreported;
    unended = λ early. (subst (All IsMessage) e (c.unended early)).1;
  }
  receive_from-Coherent zero [] d s e c = c
  receive_from-Coherent (suc f) [] d s e c =
      receive_from-Coherent f (step d s).buffer d (step d s) refl (step-Coherent d s c)

  pub receive-Coherent : (d : ℤ) (s : ActiveStream) → Coherent s → Coherent (receive d s).1
  unfolding receive
  receive-Coherent d s c = receive_from-Coherent _ s.buffer d s refl c

  pub await_meta-Coherent : (d : ℤ) (s : ActiveStream) → Coherent s → Coherent (await_meta d s).1
  unfolding await_meta
  await_meta-Coherent d s c = elim (Bool-cases (is_some s.meta_sent)) [
    | inl sent ↦ rw sent c
    | inr waiting ↦ rw waiting (step-Coherent d s c)
  ]
