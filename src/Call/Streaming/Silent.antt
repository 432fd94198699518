-- ===== src/Call/Streaming/Silent.antt =====
-- Whether the result of reading from a stream has a status.
use grpc_php_rs.Common.{
  ℕ, List, ◌∙◌, Bool, true, false, ◌≡◌, refl, [], ◌∷◌, ◌++◌, Option, none, some, ℤ, Bool-cases, inl,
  inr, is_some,
}
use grpc_php_rs.Metadata.Map.{Tonic}
use grpc_php_rs.Stream.{Item, end_of_stream, failed, ActiveStream, advance}
use grpc_php_rs.Stream.Reads.{receive}
use grpc_php_rs.Call.Batch.{BatchOps}
use grpc_php_rs.Call.Result.{Property, ResultObject}
use grpc_php_rs.Call.State.{Call, Environment, gets, lift_grpc}
use grpc_php_rs.Call.Streaming.{
  build_stream_result, read_active, on_active, read_stream, read_metadata, read_message,
  read_status, show_item,
}
use grpc_php_rs.Call.Keeps.Returns.{Returns, Returns-after, Returns-then}

abbrev pub has_status : ResultObject → Bool
has_status [] = false
has_status (Property.status md code text ∷ rest) = true
has_status (Property.metadata md ∷ rest) = has_status rest
has_status (Property.message body ∷ rest) = has_status rest
has_status (Property.acked prop ∷ rest) = has_status rest

-- A result without a status.
abbrev pub Silent : ResultObject → Type 0
Silent r = has_status r ≡ false

-- A result that has a status if and only if the flag says so.
abbrev pub Tells : Bool → ResultObject → Type 0
Tells b r = has_status r ≡ b

Tells-append : (b : Bool) (r q : ResultObject) → Silent r → Tells b q → Tells b (r ++ q)
Tells-append b [] q s t = t
Tells-append b (Property.status md code text ∷ rest) q s t = absurd (cc)
Tells-append b (Property.metadata md ∷ rest) q s t = Tells-append b rest q s t
Tells-append b (Property.message body ∷ rest) q s t = Tells-append b rest q s t
Tells-append b (Property.acked prop ∷ rest) q s t = Tells-append b rest q s t

pub Tells-append-Silent : (b : Bool) (r q : ResultObject) → Tells b r → Silent q → Tells b (r ++ q)
Tells-append-Silent b [] q t s = s ∙ t
Tells-append-Silent b (Property.status md code text ∷ rest) q t s = t
Tells-append-Silent b (Property.metadata md ∷ rest) q t s = Tells-append-Silent b rest q t s
Tells-append-Silent b (Property.message body ∷ rest) q t s = Tells-append-Silent b rest q t s
Tells-append-Silent b (Property.acked prop ∷ rest) q t s = Tells-append-Silent b rest q t s

module _ ⦃tonic : Tonic⦄ where
  read_metadata-Silent : (b : Bool) (d : ℤ) (s : ActiveStream) → Silent (read_metadata b d s).0
  unfolding read_metadata
  read_metadata-Silent false d s = refl
  read_metadata-Silent true d s = refl

  show_item-Silent :
      (d now : ℤ) (o : Option Item) (s : ActiveStream) → Silent (show_item d now (o, s)).0
  unfolding show_item
  show_item-Silent d now (some (Item.message bytes)) s = refl
  show_item-Silent d now (some end_of_stream) s = refl
  show_item-Silent d now (some (failed st)) s = refl
  show_item-Silent d now none s = refl

  read_message-Silent :
      (b : Bool) (d now : ℤ) (s : ActiveStream) → Silent (read_message b d now s).0
  unfolding read_message
  read_message-Silent false d now s = refl
  read_message-Silent true d now s = elim (Bool-cases (is_some s.cached_trailers)) [
    | inl e ↦ rw e refl
    | inr e ↦ rw e (show_item-Silent d now (receive d s).0 (receive d s).1)
  ]

module _ ⦃tonic : Tonic⦄ where
  read_status-Tells :
      (b : Bool) (schedule : List (ℕ × Bool)) (d : ℤ) (s : ActiveStream)
      → Tells b (read_status b schedule d s).0
  unfolding read_status
  read_status-Tells false schedule d s = refl
  read_status-Tells true schedule d s = refl

module _ ⦃tonic : Tonic⦄ (env : Environment) (batch : BatchOps) where
  read_stream-Tells :
      (d : ℤ) (s : ActiveStream) → Tells batch.recv_status (read_stream env batch d s).0
  unfolding read_stream
  read_stream-Tells d s =
      let s0 = advance env.ahead d s in
      let metadata = read_metadata batch.recv_initial_metadata d s0 in
      let message = read_message batch.recv_message d env.now_report metadata.1 in
      let status = read_status batch.recv_status env.schedule d message.1 in
      Tells-append batch.recv_status metadata.0 (message.0 ++ status.0)
        (read_metadata-Silent batch.recv_initial_metadata d s0)
        (Tells-append batch.recv_status message.0 status.0
          (read_message-Silent batch.recv_message d env.now_report metadata.1)
          (read_status-Tells batch.recv_status env.schedule d message.1))

  read_active-Tells :
      (call : Call) (a : Option ActiveStream)
      → Returns (Tells batch.recv_status) (on_active (read_active env batch call) a)
  read_active-Tells call none s = tt
  read_active-Tells call (some a) s =
      Returns-then (Tells batch.recv_status) _ _ (λ s. read_stream-Tells call.deadline_usec a) s

  pub build_stream_result-Tells : Returns (Tells batch.recv_status) (build_stream_result env batch)
  unfolding build_stream_result
  build_stream_result-Tells =
      Returns-after (Tells batch.recv_status) (lift_grpc env.runtime) _ λ rt.
        Returns-after (Tells batch.recv_status) (gets (λ c. c)) _
          λ call. read_active-Tells call call.stream_state
