-- ===== src/Call/Batch.antt =====
-- src/call.rs: a batch of operations, parsed from the PHP array that `startBatch` is given.
pub mod Flags
use grpc_php_rs.Common.{
  Bool, true, false, not, [], Option, none, some, and_then, eqb_ℤ, ℤ, pos, is_some, if◌then◌else◌,
}
use grpc_php_rs.Host.{Host, Bytes, Zval, Table, nil, entry, as_long, as_array, zend_str, get}
use grpc_php_rs.Error.{PhpResult, ok, err, ok_or, map_err, from, invalid_argument, ◌>>=◌}
use grpc_php_rs.Metadata.{Pairs, array_key_to_long, parse_send_metadata}

pub record BatchOps : Type 0 where
  pub send_metadata : Pairs
  pub has_send_initial_metadata : Bool
  pub send_message : Option Bytes
  pub send_close : Bool
  pub recv_initial_metadata : Bool
  pub recv_message : Bool
  pub recv_status : Bool
  pub has_send_ops : Bool
  pub has_recv_ops : Bool

unfoldable pub empty_batch : BatchOps
empty_batch = record {
  send_metadata = [];
  has_send_initial_metadata = false;
  send_message = none;
  send_close = false;
  recv_initial_metadata = false;
  recv_message = false;
  recv_status = false;
  has_send_ops = false;
  has_recv_ops = false;
}

module _ ⦃host : Host⦄ where
  -- An optional flag must be an int.
  unfoldable pub flags_ok : Option Zval → Bool
  flags_ok none = true
  flags_ok (some flags) = is_some (as_long flags)

  -- The bytes of `['message' => string, 'flags' => int]`.
  unfoldable pub send_message_of : Zval → PhpResult Bytes
  unfolding flags_ok
  send_message_of val =
      ok_or (as_array val) (invalid_argument "Expected an array for send message") >>= λ ht.
      if not (flags_ok (get "flags" ht))
      then err (invalid_argument "Expected an int for message flags")
      else ok_or (and_then (get "message" ht) zend_str)
          (invalid_argument "Expected a string for send message")

  -- One round of the loop, by the operation's code.
  unfoldable pub parse_op : ℤ → Zval → BatchOps → PhpResult BatchOps
  parse_op op_code val batch =
      if eqb_ℤ op_code (pos 0)
      then ok_or (as_array val) (invalid_argument "Bad metadata value given") >>= (λ ht.
        parse_send_metadata ht >>= λ pairs. ok (record batch {
          has_send_ops = true;
          has_send_initial_metadata = true;
          send_metadata = pairs;
        }))
      else if eqb_ℤ op_code (pos 1)
      then send_message_of val
        >>= (λ bytes. ok (record batch { has_send_ops = true; send_message = some bytes }))
      else if eqb_ℤ op_code (pos 2)
      then ok (record batch { has_send_ops = true; send_close = true })
      else if eqb_ℤ op_code (pos 4)
      then ok (record batch { has_recv_ops = true; recv_initial_metadata = true })
      else if eqb_ℤ op_code (pos 5)
      then ok (record batch { has_recv_ops = true; recv_message = true })
      else if eqb_ℤ op_code (pos 6)
      then ok (record batch { has_recv_ops = true; recv_status = true })
      else err (invalid_argument "Unrecognized key in batch")

  unfoldable pub parse_from : Table → BatchOps → PhpResult BatchOps
  parse_from nil batch = ok batch
  parse_from (entry key val rest) batch = map_err from (array_key_to_long key) >>= λ op_code.
      parse_op op_code val batch >>= λ batch'. parse_from rest batch'

  unfoldable pub parse_ops : Table → PhpResult BatchOps
  unfolding parse_from empty_batch
  parse_ops ops = parse_from ops empty_batch
