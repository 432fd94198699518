-- ===== src/Call/Status/Asked.antt =====
-- Which batches return with a status.
use grpc_php_rs.Common.{Bool, false, ◌||◌, ◌≡◌, ◌∙◌, arith, subst, ℤ, pos, negsuc, eqb_ℤ, inl, inr}
use grpc_php_rs.Host.{Host, Table, Zval, nil, entry}
use grpc_php_rs.Error.{PhpResult, PhpException, Result, GrpcError, ok, err}
use grpc_php_rs.Metadata.{array_key_to_long}
use grpc_php_rs.Error.Ensures.{Ensures, Result-cases}
use grpc_php_rs.Metadata.Map.{Tonic}
use grpc_php_rs.Call.Batch.{BatchOps, parse_ops, parse_op, parse_from, empty_batch}
use grpc_php_rs.Call.Batch.Flags.{parse_ops-IsConsistent}
use grpc_php_rs.Call.Result.{ResultObject}
use grpc_php_rs.Call.State.{CallState, Environment, lift, ◌>>=◌}
use grpc_php_rs.Call.Streaming.Silent.{has_status, Tells}
use grpc_php_rs.Call.{run_batch, check_batch, start_batch, called_incorrectly}
use grpc_php_rs.Call.Status.{run_batch-Tells}

module _ ⦃host : Host⦄ where
  reads_as : ℤ → Result GrpcError ℤ → Bool
  reads_as n (ok m) = eqb_ℤ m n
  reads_as n (err e) = false

  -- Whether a key of the table reads as this operation's code.
  unfoldable pub has_op : ℤ → Table → Bool
  unfolding reads_as
  has_op n nil = false
  has_op n (entry key val rest) = reads_as n (array_key_to_long key) || has_op n rest

  parse_op_status :
      (op_code : ℤ) (val : Zval) (b b' : BatchOps)
      → parse_op op_code val b ≡ ok b'
      → b'.recv_status ≡ (b.recv_status || eqb_ℤ op_code (pos 6))
  unfolding parse_op
  parse_op_status (pos n) val b b' e = ground arith
  parse_op_status (negsuc n) val b b' e = ground arith

  parse_from_status :
      (ops : Table) (b b' : BatchOps)
      → parse_from ops b ≡ ok b'
      → b'.recv_status ≡ (b.recv_status || has_op (pos 6) ops)
  unfolding parse_from has_op reads_as
  parse_from_status nil b b' e = ground arith
  parse_from_status (entry key val rest) b b' e = elim (Result-cases (array_key_to_long key)) [
    | inr (x, p) ↦ absurd (ground arith)
    | inl (op, p) ↦ elim (Result-cases (parse_op op val b)) [
      | inr (x, q) ↦ absurd (ground arith)
      | inl (b1, q) ↦
          ground (arith, parse_op_status op val b b1 q, parse_from_status rest b1 b' (ground arith))
    ]
  ]

  parse_ops_status :
      (ops : Table) (batch : BatchOps)
      → parse_ops ops ≡ ok batch
      → batch.recv_status ≡ has_op (pos 6) ops
  unfolding parse_ops empty_batch
  parse_ops_status ops batch e = parse_from_status ops empty_batch batch e

module _ ⦃host : Host⦄ ⦃tonic : Tonic⦄ (env : Environment) where
  run_batch_tells :
      (batch : BatchOps) (s : CallState) {r : ResultObject}
      → (batch.has_recv_ops ≡ false → batch.recv_status ≡ false)
      → (run_batch env batch s).0 ≡ ok r
      → has_status r ≡ batch.recv_status
  run_batch_tells batch s asks e =
      subst (Ensures (Tells batch.recv_status) (λ x. Unit)) e (run_batch-Tells env batch asks s)

  check_batch_tells :
      (batch : BatchOps) (s : CallState) {r : ResultObject}
      → (batch.has_recv_ops ≡ false → batch.recv_status ≡ false)
      → (check_batch env batch s).0 ≡ ok r
      → has_status r ≡ batch.recv_status
  unfolding check_batch called_incorrectly ◌>>=◌
  check_batch_tells batch s {r = r} asks e =
      ground (arith, asks, run_batch_tells batch s {r = r} asks)

  asks_of :
      (ops : Table) (batch : BatchOps)
      → parse_ops ops ≡ ok batch
      → batch.has_recv_ops ≡ false
      → batch.recv_status ≡ false
  asks_of ops batch parsed h =
      let summary = (parse_ops-IsConsistent ops batch parsed).1 in ground (arith, summary, h)

  parsed_check :
      (result : PhpResult BatchOps) (batch : BatchOps) (s : CallState) {r : ResultObject}
      → result ≡ ok batch
      → ((lift result >>= check_batch env) s).0 ≡ ok r
      → (check_batch env batch s).0 ≡ ok r
  unfolding ◌>>=◌
  parsed_check result batch s parsed e = ground (arith, parsed, e)

  refused_check :
      (result : PhpResult BatchOps) (s : CallState) {r : ResultObject} (x : PhpException)
      → result ≡ err x
      → ((lift result >>= check_batch env) s).0 ≡ ok r
      → ⊥
  unfolding ◌>>=◌
  refused_check result s x failed e = ground (arith, failed, e)

  -- A batch that returns has a status in its result if and only if one of its keys reads as
  -- RECV_STATUS_ON_CLIENT: whichever way it is run, unary, on a stream that it opens, or on one that
  -- is open.
  pub status_iff_asked :
      (ops : Table) (s : CallState) {r : ResultObject}
      → (start_batch env ops s).0 ≡ ok r
      → has_status r ≡ has_op (pos 6) ops
  unfolding start_batch
  status_iff_asked ops s {r = r} e =
      let returned : ((lift (parse_ops ops) >>= check_batch env) s).0 ≡ ok r = ground (arith, e) in
      elim (Result-cases (parse_ops ops)) [
        | inr (x, failed) ↦ absurd (refused_check (parse_ops ops) s {r = r} x failed returned)
        | inl (batch, parsed) ↦
            check_batch_tells batch s {r = r} (asks_of ops batch parsed)
              (parsed_check (parse_ops ops) batch s {r = r} parsed returned)
            ∙ parse_ops_status ops batch parsed
      ]
