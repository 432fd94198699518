-- ===== src/Credentials/Plugins.antt =====
-- Which call credentials a composite carries.
use grpc_php_rs.Common.{◌≡◌, refl, some, arith}
use grpc_php_rs.Host.{Zval}
use grpc_php_rs.Credentials.{
  ChannelCredentials, CallCredentials, Statics, create_composite, create_composite_call,
}

-- A composite of call credentials does not chain them: it is the first that has a plugin, and what
-- follows it is dropped, in a composite of any three too, whichever way it is nested.
pub create_composite_call_first :
    (a b c : CallCredentials) (plugin : Zval)
    → a.plugin ≡ some plugin
    → (create_composite_call a b ≡ a)
      × (create_composite_call (create_composite_call a b) c
          ≡ create_composite_call a (create_composite_call b c))
unfolding create_composite_call
create_composite_call_first a b c plugin h = ground arith

-- A composite over channel credentials that are a composite already keeps their TLS configuration and
-- drops their plugin: it is the composite over the plain credentials.
create_composite_twice :
    (base : ChannelCredentials) (first second : CallCredentials) (s t : Statics)
    → (create_composite (create_composite base first s).0 second t).0
      ≡ (create_composite base second t).0
unfolding create_composite
create_composite_twice base first second s t = refl
