-- ===== src/Compat/Strips.antt =====
-- Which methods lose their return type, and when.
use grpc_php_rs.Common.{
  ℕ, Bool, false, not, ◌&&◌, ◌||◌, ◌≡◌, ◌∙◌, refl, String, List, [], ◌∷◌, Option, none, some, pos,
  ◌==◌, if◌then◌else◌, arith, Option-cases, inl, inr,
}
use grpc_php_rs.Compat.{
  Zend, Memory, Patched, channel_methods, call_methods, timeval_methods,
  channel_credentials_methods, call_credentials_methods, strip_method_return_type, strip_methods,
  strip_class_methods, strip_all, strip_return_types,
}

-- The classes and the methods, in one table.
abbrev pub listed : List (String × List String)
listed =
    ("Grpc\\Channel", channel_methods)
    ∷ ("Grpc\\Call", call_methods)
    ∷ ("Grpc\\Timeval", timeval_methods)
    ∷ ("Grpc\\ChannelCredentials", channel_credentials_methods)
    ∷ ("Grpc\\CallCredentials", call_credentials_methods)
    ∷ []

module _ (zend : Zend) where
  abbrev is_at : ℕ → Option ℕ → Bool
  is_at q none = false
  is_at q (some p) = q == p

  -- Whether the function at an address is one of the methods of a class entry.
  abbrev is_method : ℕ → ℕ → List String → Bool
  is_method q ce [] = false
  is_method q ce (method ∷ methods) = is_at q (zend.find_ptr_lc ce method) || is_method q ce methods

  abbrev is_in_class : ℕ → Option ℕ → List String → Bool
  is_in_class q none methods = false
  is_in_class q (some ce) methods = is_method q ce methods

  -- Whether the engine finds that function under one of the names of a table.
  abbrev pub is_listed : ℕ → List (String × List String) → Bool
  is_listed q [] = false
  is_listed q ((class_name, methods) ∷ rest) =
      is_in_class q (zend.try_find class_name) methods || is_listed q rest

  -- The bits with those of the mask cleared, where it is asked for.
  abbrev pub masked : Bool → Memory → ℕ → ℕ → Bool
  masked b m q i = if b then m q i && not (zend.has_return_type i) else m q i

  masked_twice :
      (a b : Bool) (m : Memory) (m' : Memory) (q i : ℕ)
      → m' q i ≡ masked a m q i
      → masked b m' q i ≡ masked (a || b) m q i
  masked_twice a b m m' q i e = ground arith

  strip_method_exact :
      (ce : ℕ) (method : String) (m : Memory) (q i : ℕ)
      → strip_method_return_type zend ce method m q i
        ≡ masked (is_at q (zend.find_ptr_lc ce method)) m q i
  unfolding strip_method_return_type
  strip_method_exact ce method m q i = ground arith

  strip_methods_exact :
      (ce : ℕ) (methods : List String) (m : Memory) (q i : ℕ)
      → strip_methods zend ce methods m q i ≡ masked (is_method q ce methods) m q i
  unfolding strip_methods
  strip_methods_exact ce [] m q i = refl
  strip_methods_exact ce (method ∷ methods) m q i =
      strip_methods_exact ce methods (strip_method_return_type zend ce method m) q i
      ∙ masked_twice _ _ m (strip_method_return_type zend ce method m) q i
          (strip_method_exact ce method m q i)

  strip_class_exact :
      (class_name : String) (methods : List String) (m : Memory) (q i : ℕ)
      → strip_class_methods zend class_name methods m q i
        ≡ masked (is_in_class q (zend.try_find class_name) methods) m q i
  unfolding strip_class_methods
  strip_class_exact class_name methods m q i = elim (Option-cases (zend.try_find class_name)) [
    | inl e ↦ rw (e, strip_class_methods) refl
    | inr (ce, e) ↦ rw (e, strip_class_methods) (strip_methods_exact ce methods m q i)
  ]

  abbrev strip_table : List (String × List String) → Memory → Memory
  strip_table [] m = m
  strip_table ((class_name, methods) ∷ rest) m =
      strip_table rest (strip_class_methods zend class_name methods m)

  strip_table_exact :
      (table : List (String × List String)) (m : Memory) (q i : ℕ)
      → strip_table table m q i ≡ masked (is_listed q table) m q i
  strip_table_exact [] m q i = refl
  strip_table_exact ((class_name, methods) ∷ rest) m q i =
      strip_table_exact rest (strip_class_methods zend class_name methods m) q i
      ∙ masked_twice _ _ m (strip_class_methods zend class_name methods m) q i
          (strip_class_exact class_name methods m q i)

  strip_all_exact :
      (m : Memory) (q i : ℕ) → strip_all zend m q i ≡ masked (is_listed q listed) m q i
  unfolding strip_all
  strip_all_exact m q i = strip_table_exact listed m q i

  -- The first request clears the bits of the mask in the flags of exactly the functions that the
  -- engine finds under a listed class and method name, leaves every other bit and every other function
  -- alone, and returns 0; a class or a method that is not found is passed over, and a function found
  -- twice is cleared like one found once. Every later request returns 0 and changes nothing.
  pub strip_return_types_exact :
      (s : Patched)
      → s.init ≡ false
      → let first = strip_return_types zend s in
        ((q i : ℕ) → first.1.memory q i ≡ masked (is_listed q listed) s.memory q i)
        × (first.0 ≡ pos 0)
        × (strip_return_types zend first.1 ≡ (pos 0, first.1))
  unfolding strip_return_types
  strip_return_types_exact s fresh =
      rw (fresh, strip_return_types) (λ q i. strip_all_exact s.memory q i, refl, refl)
