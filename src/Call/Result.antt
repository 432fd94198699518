-- ===== src/Call/Result.antt =====
-- src/call.rs: the result objects of `startBatch`. An object is its properties in the order in which
-- they are set; setting a property and building an array are taken to succeed.
use grpc_php_rs.Common.{ℕ, Bool, String, List, [], ◌∷◌, ◌++◌, Option, none, some, if◌then◌else◌}
use grpc_php_rs.Host.{Bytes}
use grpc_php_rs.Metadata.Map.{MetadataMap, Tonic}
use grpc_php_rs.Metadata.{MetadataEntries, metadata_to_php}

-- `acked` is one of the booleans send_metadata, send_message and send_close.
pub data Property : Type 0 where
  metadata : MetadataEntries → Property
  message : Option Bytes → Property
  status : MetadataEntries → ℕ → String → Property
  acked : String → Property

abbrev pub ResultObject : Type 0
ResultObject = List Property

-- `CallResult`
pub record CallResult : Type 0 where
  pub initial_metadata : Option MetadataMap
  pub body : Option Bytes
  pub trailing_metadata : Option MetadataMap
  pub code : ℕ
  pub text : String

module _ ⦃tonic : Tonic⦄ where
  -- The array of a map, or an empty one.
  abbrev pub php_metadata : Option MetadataMap → MetadataEntries
  php_metadata none = []
  php_metadata (some md) = metadata_to_php md

  unfoldable pub build_unary_result : Bool → Bool → Bool → CallResult → ResultObject
  build_unary_result recv_initial_metadata recv_message recv_status r =
      (if recv_initial_metadata then metadata (php_metadata r.initial_metadata) ∷ [] else [])
      ++ ((if recv_message then message r.body ∷ [] else [])
          ++ (if recv_status
              then status (php_metadata r.trailing_metadata) r.code r.text ∷ []
              else []))
