-- ===== src/Call/Batch/Flags.antt =====
-- What a parsed batch says of itself.
use grpc_php_rs.Common.{inl, inr, subst, ap, arith, refl, ◌≡◌, false, ◌||◌, [], ℤ, is_some}
use grpc_php_rs.Host.{Host, Zval, Table, nil, entry}
use grpc_php_rs.Error.Ensures.{Result-cases}
use grpc_php_rs.Error.{ok}
use grpc_php_rs.Call.Batch.{
  array_key_to_long, err, PhpResult, BatchOps, parse_op, parse_from, empty_batch, parse_ops,
}

-- The two summaries are those of the operations, and without SEND_INITIAL_METADATA no metadata are sent.
abbrev pub IsConsistent : BatchOps → Type 0
IsConsistent b =
    (b.has_send_ops ≡ (b.has_send_initial_metadata || (is_some b.send_message || b.send_close)))
    × (b.has_recv_ops ≡ (b.recv_initial_metadata || (b.recv_message || b.recv_status)))
    × (b.has_send_initial_metadata ≡ false → b.send_metadata ≡ [])

value_of : BatchOps → PhpResult BatchOps → BatchOps
value_of b (ok a) = a
value_of b (err e) = b

subst_ok :
    (P : BatchOps → Type 0) (a b : BatchOps) → Path (PhpResult BatchOps) (ok a) (ok b) → P a → P b
unfolding value_of
subst_ok P a b e p = subst P (ap (value_of a) e) p

module _ ⦃host : Host⦄ where
  parse_op_send :
      (op_code : ℤ) (val : Zval) (b b' : BatchOps)
      → b.has_send_ops ≡ (b.has_send_initial_metadata || (is_some b.send_message || b.send_close))
      → parse_op op_code val b ≡ ok b'
      → b'.has_send_ops
        ≡ (b'.has_send_initial_metadata || (is_some b'.send_message || b'.send_close))
  unfolding parse_op
  parse_op_send op_code val b b' h e = ground arith

  parse_op_recv :
      (op_code : ℤ) (val : Zval) (b b' : BatchOps)
      → b.has_recv_ops ≡ (b.recv_initial_metadata || (b.recv_message || b.recv_status))
      → parse_op op_code val b ≡ ok b'
      → b'.has_recv_ops ≡ (b'.recv_initial_metadata || (b'.recv_message || b'.recv_status))
  unfolding parse_op
  parse_op_recv op_code val b b' h e = ground arith

  parse_op_metadata :
      (op_code : ℤ) (val : Zval) (b b' : BatchOps)
      → (b.has_send_initial_metadata ≡ false → b.send_metadata ≡ [])
      → parse_op op_code val b ≡ ok b'
      → b'.has_send_initial_metadata ≡ false
      → b'.send_metadata ≡ []
  unfolding parse_op
  parse_op_metadata op_code val b b' h e off = ground arith

  parse_from-IsConsistent :
      (ops : Table) (b b' : BatchOps) → IsConsistent b → parse_from ops b ≡ ok b' → IsConsistent b'
  unfolding parse_from
  parse_from-IsConsistent nil b b' c e = subst_ok IsConsistent b b' e c
  parse_from-IsConsistent (entry key val rest) b b' c e =
      elim (Result-cases (array_key_to_long key)) [
        | inr (x, p) ↦ absurd (ground arith)
        | inl (op, p) ↦ elim (Result-cases (parse_op op val b)) [
          | inr (x, q) ↦ absurd (ground arith)
          | inl (b1, q) ↦
              parse_from-IsConsistent rest b1 b'
                (
                  parse_op_send op val b b1 c.0 q,
                  parse_op_recv op val b b1 c.1 q,
                  parse_op_metadata op val b b1 c.2 q,
                )
                (ground arith)
        ]
      ]

  -- A batch that was parsed is consistent: it has send operations exactly if it sends metadata, a
  -- message or a close, it has receive operations exactly if it reads metadata, a message or the
  -- status, and it carries metadata only with SEND_INITIAL_METADATA.
  pub parse_ops-IsConsistent :
      (ops : Table) (batch : BatchOps) → parse_ops ops ≡ ok batch → IsConsistent batch
  unfolding parse_ops empty_batch
  parse_ops-IsConsistent ops batch e =
      parse_from-IsConsistent ops empty_batch batch (refl, refl, λ h. refl) e
