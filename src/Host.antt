-- ===== src/Host.antt =====
-- What the extension sees of PHP: values, array keys and arrays (the types of ext_php_rs that
-- src/*.rs read), and the functions of the host that the sources call and do not define.
use grpc_php_rs.Common.{ℕ, Bool, String, List, Option, none, some, str_eq, ℤ, if◌then◌else◌}

-- A byte string.
abbrev pub Bytes : Type 0
Bytes = List ℕ

-- A key of a PHP array, by the way that ext_php_rs holds it.
pub data ArrayKey : Type 0 where
  long : ℤ → ArrayKey
  string : String → ArrayKey
  str : String → ArrayKey
  zend_string : Bytes → ArrayKey

-- A float is its bit pattern, an object its handle.
mutual
  pub data Zval : Type 0 where
    null : Zval
    bool : Bool → Zval
    long : ℤ → Zval
    double : ℕ → Zval
    text : Bytes → Zval
    arr : Table → Zval
    object : ℕ → Zval

  -- A `ZendHashTable`, in the order of iteration.
  pub data Table : Type 0 where
    nil : Table
    entry : ArrayKey → Zval → Table → Table

-- Functions of PHP, of ext_php_rs and of Rust's standard library that have no source here.
pub record Host : Type 0 where
  -- `ClassEntry::try_find`: the class registered under a name
  pub try_find : String → Option String
  -- `d as i64`, of a float by its bit pattern
  pub f64_as_i64 : ℕ → ℤ
  -- `Zval::is_callable`
  pub is_callable : Zval → Bool
  -- `str::from_utf8` and `String::from_utf8_lossy`
  pub from_utf8 : Bytes → Option String
  pub from_utf8_lossy : Bytes → String
  -- `ArrayKey::to_string` of a key that is a Zend string
  pub zend_string_to_string : Bytes → String

-- `Zval::long`, `double`, `bool`, `zend_str` and `array`: the payload of that one type.
abbrev pub as_long : Zval → Option ℤ
as_long (Zval.long n) = some n
as_long _ = none

abbrev pub as_double : Zval → Option ℕ
as_double (double d) = some d
as_double _ = none

abbrev pub as_bool : Zval → Option Bool
as_bool (bool b) = some b
as_bool _ = none

abbrev pub zend_str : Zval → Option Bytes
zend_str (text s) = some s
zend_str _ = none

abbrev pub as_array : Zval → Option Table
as_array (arr t) = some t
as_array _ = none

module _ ⦃host : Host⦄ where
  -- `Zval::string`: a string that is valid UTF-8
  abbrev pub as_string : Zval → Option String
  as_string (text s) = host.from_utf8 s
  as_string _ = none

  -- `ArrayKey::as_str`-like text of a key that is no integer
  abbrev pub key_text : ArrayKey → Option String
  key_text (ArrayKey.long n) = none
  key_text (ArrayKey.string s) = some s
  key_text (ArrayKey.str s) = some s
  key_text (ArrayKey.zend_string s) = host.from_utf8 s

  abbrev key_is : String → Option String → Bool
  key_is k none = Bool.false
  key_is k (some j) = str_eq j k

  -- `ZendHashTable::get` by a string key
  unfoldable pub get : String → Table → Option Zval
  get k nil = none
  get k (entry j v t) = if key_is k (key_text j) then some v else get k t
