-- ===== src/Channel/Args.antt =====
-- src/channel.rs: the arguments of a channel, as `__construct` reads them.
use grpc_php_rs.Common.{
  ◌++◌, concat, ℕ, ◌-◌, ◌^◌, Bool, false, not, ◌||◌, String, List, [], ◌∷◌, Option, none, some,
  str_eq, unwrap_or, and_then, ltb_ℤ, eqb_ℤ, pos, negsuc, pos_part, if◌then◌else◌,
}
use grpc_php_rs.Host.{Host, ArrayKey, Zval, Table, nil, entry, as_long, as_bool, as_string}
use grpc_php_rs.Error.{PhpResult, ok, err, ok_or, invalid_argument, ◌>>=◌}
use grpc_php_rs.Error.Decimal.{to_string}

module _ ⦃host : Host⦄ where
  -- The key as text; an integer key is refused.
  unfoldable pub arg_key : ArrayKey → PhpResult String
  arg_key (ArrayKey.long n) = err (invalid_argument "args keys must be strings")
  arg_key (ArrayKey.string s) = ok s
  arg_key (ArrayKey.str s) = ok s
  arg_key (ArrayKey.zend_string zs) = ok (host.zend_string_to_string zs)

  -- `val.bool().unwrap_or(false) || val.long().is_some_and(|l| l != 0)`
  unfoldable pub is_truthy : Zval → Bool
  is_truthy val =
      unwrap_or (as_bool val) false
      || unwrap_or (and_then (as_long val) (λ l. some (not (eqb_ℤ l (pos 0))))) false

  unfoldable pub arg_value : Zval → PhpResult String
  arg_value val = elim (as_long val) [
    | some l ↦ ok (to_string l)
    | none ↦ ok_or (as_string val) (invalid_argument "args values must be int or string")
  ]

  -- `force_new` after one argument.
  unfoldable pub next_force : String → Zval → Bool → Bool
  next_force key_str val force_new =
      if str_eq key_str "credentials"
      then force_new
      else if str_eq key_str "force_new"
      then is_truthy val
      else force_new

  -- The persistence part of one argument; the two keys that are extracted have none.
  unfoldable pub part_of : String → Zval → PhpResult (List String)
  part_of key_str val =
      if str_eq key_str "credentials" || str_eq key_str "force_new"
      then ok []
      else arg_value val >>= λ val_str. ok (concat key_str (concat "=" val_str) ∷ [])

  -- The validating loop: whether `force_new` was set, and the parts in the order of the array.
  unfoldable pub validate : Bool → Table → PhpResult (Bool × List String)
  validate force_new nil = ok (force_new, [])
  validate force_new (entry key val rest) = arg_key key >>= λ key_str.
      part_of key_str val >>= λ part.
      validate (next_force key_str val force_new) rest >>= λ more. ok (more.0, part ++ more.1)

  -- `grpc.max_receive_message_length` and `grpc.max_send_message_length`: -1 means unlimited.
  unfoldable pub size_limit : Option Zval → Option ℕ
  size_limit val = and_then (and_then val as_long) λ v.
      if eqb_ℤ v (negsuc 0)
      then some (2 ^ 64 - 1)
      else if ltb_ℤ (pos 0) v
      then some (pos_part v)
      else none
