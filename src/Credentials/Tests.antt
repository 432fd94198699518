-- ===== src/Credentials/Tests.antt =====
-- Credentials at concrete values.
use grpc_php_rs.Common.{List, [], ◌∷◌, some, arith, pos}
use grpc_php_rs.Host.{Zval}
use grpc_php_rs.Credentials.{ChannelCredentials, CallCredentials, new, CredentialsInner, start}
use grpc_php_rs.Credentials.Ids.{
  Request, default, composite, set_roots, ids, Ascending, ids_distinct,
}

abbrev plain : ChannelCredentials
plain = record { inner = CredentialsInner.ssl new; id = 1 }

abbrev first : CallCredentials
first = record { plugin = some (Zval.long (pos 1)) }

abbrev second : CallCredentials
second = record { plugin = some (Zval.long (pos 2)) }

abbrev requests : List Request
requests = set_roots "pem" ∷ default ∷ composite plain first ∷ []

ids_distinct_example : Ascending 1 (ids requests start)
ids_distinct_example = ids_distinct requests (omega arith)
