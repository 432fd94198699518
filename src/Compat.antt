-- ===== src/Compat.antt =====
-- src/compat.rs: clearing the return types that ext-php-rs declares on the methods of the classes.
-- What the Zend engine keeps is an argument: its lookups of a class by name and of a method in a
-- class's function table, and the mask of the flag. A method is the address of its function; the
-- memory gives the bits of the `fn_flags` there.
pub mod Strips
mod Tests
use grpc_php_rs.Common.{
  ℕ, Bool, true, not, ◌&&◌, String, List, [], ◌∷◌, Option, none, some, ℤ, pos, ◌==◌, if◌then◌else◌,
}

pub record Zend : Type 0 where
  -- `ClassEntry::try_find`
  pub try_find : String → Option ℕ
  -- `zend_hash_str_find_ptr_lc` in the function table of a class; `none` is the null pointer
  pub find_ptr_lc : ℕ → String → Option ℕ
  -- the bits of `ZEND_ACC_HAS_RETURN_TYPE`
  pub has_return_type : ℕ → Bool

-- The bits of `fn_flags` by the address of the function.
abbrev pub Memory : Type 0
Memory = ℕ → ℕ → Bool

abbrev channel_methods : List String
channel_methods = "gettarget" ∷ "getconnectivitystate" ∷ "watchconnectivitystate" ∷ "close" ∷ []

abbrev call_methods : List String
call_methods = "startbatch" ∷ "getpeer" ∷ "cancel" ∷ "setcredentials" ∷ []

abbrev timeval_methods : List String
timeval_methods =
    "getusec" ∷ "now" ∷ "inffuture" ∷ "infpast" ∷ "zero" ∷ "similar" ∷ "compare" ∷ "add"
    ∷ "subtract" ∷ "sleepuntil" ∷ []

abbrev channel_credentials_methods : List String
channel_credentials_methods =
    "createssl" ∷ "createinsecure" ∷ "createcomposite" ∷ "createdefault" ∷ "setdefaultrootspem"
    ∷ "isdefaultrootspemset" ∷ "invalidatedefaultrootspem" ∷ []

abbrev call_credentials_methods : List String
call_credentials_methods = "createfromplugin" ∷ "createcomposite" ∷ []

-- `INIT` and the memory, which the requests of a process share.
pub record Patched : Type 0 where
  pub init : Bool
  pub memory : Memory

module _ (zend : Zend) where
  -- `fn_flags &= !ZEND_ACC_HAS_RETURN_TYPE`
  abbrev clear : ℕ → Memory → Memory
  clear p m q i = if q == p then m q i && not (zend.has_return_type i) else m q i

  pub strip_method_return_type : ℕ → String → Memory → Memory
  strip_method_return_type ce method_name m = elim (zend.find_ptr_lc ce method_name) [
    | none ↦ m
    | some p ↦ clear p m
  ]

  strip_methods : ℕ → List String → Memory → Memory
  unfolding strip_method_return_type
  strip_methods ce [] m = m
  strip_methods ce (method ∷ methods) m =
      strip_methods ce methods (strip_method_return_type ce method m)

  pub strip_class_methods : String → List String → Memory → Memory
  unfolding strip_methods
  strip_class_methods class_name methods m = elim (zend.try_find class_name) [
    | none ↦ m
    | some ce ↦ strip_methods ce methods m
  ]

  -- The closure of `INIT.call_once`.
  strip_all : Memory → Memory
  unfolding strip_class_methods
  strip_all m =
      let m1 = strip_class_methods "Grpc\\Channel" channel_methods m in
      let m2 = strip_class_methods "Grpc\\Call" call_methods m1 in
      let m3 = strip_class_methods "Grpc\\Timeval" timeval_methods m2 in
      let m4 = strip_class_methods "Grpc\\ChannelCredentials" channel_credentials_methods m3 in
      strip_class_methods "Grpc\\CallCredentials" call_credentials_methods m4

  -- The request-startup function.
  pub strip_return_types : Patched → ℤ × Patched
  unfolding strip_all
  strip_return_types s =
      if s.init then (pos 0, s) else (pos 0, record { init = true; memory = strip_all s.memory })
