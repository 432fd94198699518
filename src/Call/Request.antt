-- ===== src/Call/Request.antt =====
-- src/call.rs: the request that is handed to tonic, and the credentials plugin that adds to it.
pub mod Headers
use Prim.Native.Nat.{max}
use grpc_php_rs.Common.{
  ℕ, not, ◌&&◌, String, [], ◌∷◌, Option, none, some, concat, ltb_ℤ, ℤ, pos, pos_part, i64_max,
  saturating_sub, if◌then◌else◌,
}
use grpc_php_rs.Host.{Host, Bytes, Zval, as_array}
use grpc_php_rs.Error.{GrpcError, callback_failed, Result, ok, err}
use grpc_php_rs.Metadata.Map.{MetadataMap, Tonic}
use grpc_php_rs.Metadata.{Pairs, parse_metadata}
use grpc_php_rs.Credentials.{Plugin}
use grpc_php_rs.Call.State.{Request, Reply, returned, threw, broke}

module _ ⦃tonic : Tonic⦄ where
  -- A pair whose key or value tonic does not take is passed over.
  pub insert_pair : String × String → MetadataMap → MetadataMap
  insert_pair (key, value) map = elim (tonic.ascii_key key) [
    | none ↦ map
    | some name ↦ elim (tonic.parse_value value) [
      | none ↦ map
      | some val ↦ tonic.insert map name val
    ]
  ]

  pub apply_metadata : Pairs → MetadataMap → MetadataMap
  unfolding insert_pair
  apply_metadata [] map = map
  apply_metadata (pair ∷ rest) map = apply_metadata rest (insert_pair pair map)

-- A finite deadline becomes a timeout of at least a microsecond.
unfoldable pub request_timeout : ℤ → ℤ → Option ℕ
unfolding saturating_sub
request_timeout deadline_usec now =
    if ltb_ℤ deadline_usec i64_max && ltb_ℤ (pos 0) deadline_usec
    then some (max 1 (pos_part (saturating_sub deadline_usec now)))
    else none

module _ ⦃tonic : Tonic⦄ where
  -- `build_request`, and the same steps in `execute_call` and `start_bidi_stream`.
  unfoldable pub build_request : String → Pairs → Pairs → Option Bytes → ℤ → ℤ → Request
  unfolding apply_metadata request_timeout
  build_request path send_metadata plugin_metadata message deadline_usec now = record {
    path = path;
    metadata = apply_metadata plugin_metadata (apply_metadata send_metadata []);
    message = message;
    timeout = request_timeout deadline_usec now;
  }

module _ ⦃host : Host⦄ where
  reply_metadata : Reply → Result GrpcError Pairs
  reply_metadata (returned v) = elim (as_array v) [
    | some ht ↦ ok (parse_metadata ht)
    | none ↦ ok []
  ]
  reply_metadata (threw class message) =
      err (callback_failed (concat "plugin threw " (concat class (concat ": " message))))
  reply_metadata (broke text) = err (callback_failed text)

  unfoldable pub invoke_call_plugin :
      (Zval → String → Reply) → Plugin → String → Result GrpcError Pairs
  unfolding reply_metadata
  invoke_call_plugin reply none service_url = err (callback_failed "plugin callable is not set")
  invoke_call_plugin reply (some zval) service_url =
      if not (host.is_callable zval)
      then err (callback_failed "stored value is not callable")
      else reply_metadata (reply zval service_url)
