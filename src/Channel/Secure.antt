-- ===== src/Channel/Secure.antt =====
-- Whether a new transport is encrypted, and how its connection is set up.
use grpc_php_rs.Common.{
  concat, if◌then◌else◌, Bool, true, false, String, List, Option, none, some, is_some,
}
use grpc_php_rs.Host.{Host, Zval, null}
use text.Mathlib.Text.{find?}
use grpc_php_rs.Channel.{Channel}

-- Whether the argument asks for encryption: it is there, and it is not null.
abbrev pub asks_tls : Option Zval → Bool
asks_tls none = false
asks_tls (some null) = false
asks_tls (some _) = true

-- The URI that a target stands for: its own, if it names a scheme, and otherwise under https exactly
-- where encryption is asked for.
abbrev pub uri_by : String → Bool → String
uri_by target secure =
    if is_some (find? target "://")
    then target
    else concat (if secure then "https://" else "http://") target
