-- ===== src/Call/Status.antt =====
-- How often a call delivers its status.
pub mod Asked
use grpc_php_rs.Common.{
  Bool, true, false, ◌&&◌, not, ◌≡◌, ◌∙◌, refl, sym, ap, List, [], ◌∷◌, Option, ℕ, ◌+◌, ◌≤◌, arith,
  Bool-cases, inl, inr, if◌then◌else◌,
}
use grpc_php_rs.Host.{Host, Table, Bytes}
use grpc_php_rs.Error.{PhpResult, ok, err}
use grpc_php_rs.Error.Ensures.{Ensures, Result-cases}
use grpc_php_rs.Call.Guards.{finished_forever}
use grpc_php_rs.Metadata.Map.{Tonic}
use grpc_php_rs.Metadata.{Pairs}
use grpc_php_rs.Channel.{World}
use grpc_php_rs.Call.Batch.{BatchOps, parse_ops}
use grpc_php_rs.Call.Result.{ResultObject, build_unary_result, CallResult}
use grpc_php_rs.Call.State.{Call, CallState, Environment, pure, modify, lift, ◌>>=◌, ◌>>◌}
use grpc_php_rs.Call.Streaming.Silent.{
  has_status, Silent, Tells, Tells-append-Silent, build_stream_result-Tells,
}
use grpc_php_rs.Call.Dispatch.{
  dispatch_batch, send_only, on_stream, first_read, choose, unary, open_server_stream, recv_batch,
}
use grpc_php_rs.Call.{acks, note, run_batch, check_batch, start_batch, called_incorrectly}
use grpc_php_rs.Call.Keeps.Returns.{
  Returns, Returns-if, Returns-when, Returns-bind, Returns-after, Returns-then,
}

acks-Silent : (batch : BatchOps) → Silent (acks batch)
unfolding acks
acks-Silent batch = ground arith

unary_result-Tells :
    ⦃tonic : Tonic⦄ (recv_initial_metadata recv_message recv_status : Bool) (r : CallResult)
    → Tells recv_status (build_unary_result recv_initial_metadata recv_message recv_status r)
unfolding build_unary_result
unary_result-Tells recv_initial_metadata recv_message recv_status r = ground arith

-- A batch without read operations does not ask for the status, as `parse_ops` makes sure.
module _ ⦃host : Host⦄ ⦃tonic : Tonic⦄ (env : Environment) (batch : BatchOps)
    (asks : batch.has_recv_ops ≡ false → batch.recv_status ≡ false) where
  abbrev Told : ResultObject → Type 0
  Told = Tells batch.recv_status

  unary-Tells :
      (md pm : Pairs) (message : Option Bytes) → Returns Told (unary env batch md pm message)
  unfolding unary
  unary-Tells md pm message =
      Returns-after Told _ _
        λ r s. unary_result-Tells batch.recv_initial_metadata batch.recv_message batch.recv_status r

  choose-Tells :
      (md pm : Pairs) (message : Option Bytes) (send_closed : Bool)
      → Returns Told (choose env batch md pm message send_closed)
  unfolding choose open_server_stream recv_batch
  choose-Tells md pm message send_closed =
      Returns-if Told (batch.recv_message && batch.recv_status) _ _ (unary-Tells md pm message) (
        Returns-if Told send_closed _ _
          (Returns-then Told _ _ (build_stream_result-Tells env (recv_batch batch)))
          (unary-Tells md pm message))

  reads-Tells :
      (active : Bool) → Returns Told (if active then on_stream env batch else first_read env batch)
  unfolding on_stream first_read
  reads-Tells active =
      Returns-if Told active _ _ (Returns-then Told _ _ (build_stream_result-Tells env batch)) (
        Returns-after Told _ _ λ md. Returns-after Told _ _ λ message.
          Returns-after Told _ _
            λ pairs. Returns-after Told _ _ λ closed. choose-Tells md pairs message closed)

  send_only-Tells : batch.recv_status ≡ false → Returns Told (send_only env batch)
  unfolding send_only
  send_only-Tells unread =
      Returns-after Told _ _ λ active. Returns-then Told _ (pure []) (λ s. sym unread)

  dispatch_batch-Tells : Returns Told (dispatch_batch env batch)
  unfolding dispatch_batch
  dispatch_batch-Tells = Returns-after Told _ _ λ active.
      Returns-when Told (batch.has_send_ops && not batch.has_recv_ops) _ _
        (λ only. send_only-Tells (asks (ground (arith, only)))) (reads-Tells active)

  run_batch-Tells : Returns Told (run_batch env batch)
  unfolding run_batch
  run_batch-Tells =
      Returns-bind Told Told _ _ (Returns-then Told (modify (note batch)) _ dispatch_batch-Tells)
        (λ result h.
          Returns-then Told _ _
            (λ s. Tells-append-Silent batch.recv_status result (acks batch) h (acks-Silent batch)))

module _ ⦃host : Host⦄ ⦃tonic : Tonic⦄ (env : Environment) where
  -- A batch that reads the status, where it returns, ends the call.
  run_batch_finishes :
      (batch : BatchOps) (s : CallState) {r : ResultObject}
      → batch.recv_status ≡ true
      → (run_batch env batch s).0 ≡ ok r
      → (run_batch env batch s).1.call.finished ≡ true
  unfolding run_batch ◌>>=◌ ◌>>◌
  run_batch_finishes batch s reads e = ground arith

-- Whether a batch returned, with a status.
abbrev pub returned_status : PhpResult ResultObject → Bool
returned_status (ok r) = has_status r
returned_status (err e) = false

returned-Tells :
    (b : Bool) (r : PhpResult ResultObject)
    → Ensures (Tells b) (λ e. Unit) r
    → returned_status r ≡ true
    → b ≡ true
returned-Tells b (ok r) p e = sym p ∙ e
returned-Tells b (err x) p e = absurd (cc)

module _ ⦃host : Host⦄ ⦃tonic : Tonic⦄ (env : Environment) where
  -- An outcome that delivers a status leaves the call finished.
  abbrev Ends : PhpResult ResultObject × CallState → Type 0
  Ends outcome = returned_status outcome.0 ≡ true → outcome.1.call.finished ≡ true

  run_batch-Ends : (batch : BatchOps) (s : CallState) → Ends (run_batch env batch s)
  run_batch-Ends batch s delivered = elim (Bool-cases batch.recv_status) [
    | inl reads ↦ elim (Result-cases (run_batch env batch s).0) [
      | inl (r, e) ↦ run_batch_finishes env batch s reads e
      | inr (x, e) ↦ absurd (cc (e, delivered))
    ]
    | inr unread ↦ absurd (
        cc (
          returned-Tells batch.recv_status (run_batch env batch s).0
              (run_batch-Tells env batch (λ e. unread) s) delivered,
          unread,
        ))
  ]

  check_batch-Ends : (batch : BatchOps) (s : CallState) → Ends (check_batch env batch s)
  unfolding check_batch called_incorrectly ◌>>=◌
  check_batch-Ends batch s delivered = ground (arith, run_batch-Ends batch s)

  checked-Ends : (r : PhpResult BatchOps) (s : CallState) → Ends ((lift r >>= check_batch env) s)
  unfolding ◌>>=◌
  checked-Ends (ok batch) s delivered = check_batch-Ends batch s delivered
  checked-Ends (err e) s delivered = absurd (cc)

  start_batch-Ends : (ops : Table) (s : CallState) → Ends (start_batch env ops s)
  unfolding start_batch
  start_batch-Ends ops s delivered = ground (arith, checked-Ends (parse_ops ops) s)

  -- A call that is finished delivers no status.
  checked_finished :
      (r : PhpResult BatchOps) (s : CallState)
      → s.call.finished ≡ true
      → returned_status ((lift r >>= check_batch env) s).0 ≡ false
  unfolding check_batch called_incorrectly ◌>>=◌
  checked_finished (ok batch) s done = ground arith
  checked_finished (err e) s done = refl

  start_batch_finished :
      (ops : Table) (s : CallState)
      → s.call.finished ≡ true
      → returned_status (start_batch env ops s).0 ≡ false
  unfolding start_batch
  start_batch_finished ops s done = ground (arith, checked_finished (parse_ops ops) s done)

module _ ⦃host : Host⦄ ⦃tonic : Tonic⦄ where
  -- How many of the batches run on a call return with a status; each has an environment of its own,
  -- and the world is whatever it is by then.
  abbrev pub deliveries : List (Environment × Table × World) → Call → ℕ
  deliveries [] c = 0
  deliveries ((env, ops, w) ∷ rest) c =
      let outcome = start_batch env ops (record { call = c; world = w }) in
      (if returned_status outcome.0 then 1 else 0) + deliveries rest outcome.1.call

  deliveries_finished :
      (batches : List (Environment × Table × World)) (c : Call)
      → c.finished ≡ true
      → deliveries batches c ≡ 0
  deliveries_finished [] c done = refl
  deliveries_finished ((env, ops, w) ∷ rest) c done =
      let s : CallState = record { call = c; world = w } in
      rw (start_batch_finished env ops s done) (
        omega (
          arith,
          deliveries_finished rest (start_batch env ops s).1.call
              (ap (λ (t : CallState). t.call.finished) (finished_forever env ops s done) ∙ done),
        ))

  -- Whatever batches are run on a call, in whatever environments, at most one of them returns with a
  -- status.
  pub status_at_most_once :
      (batches : List (Environment × Table × World)) (c : Call) → deliveries batches c ≤ 1
  status_at_most_once [] c = omega arith
  status_at_most_once ((env, ops, w) ∷ rest) c =
      let s : CallState = record { call = c; world = w } in
      let after = (start_batch env ops s).1.call in
      elim (Bool-cases (returned_status (start_batch env ops s).0)) [
        | inl e ↦
            rw e (omega (arith, deliveries_finished rest after (start_batch-Ends env ops s e)))
        | inr e ↦ rw e (omega (arith, status_at_most_once rest after))
      ]
