-- ===== src/Extension/Constants.antt =====
-- The constants that PHP finds once the module has started.
use mathlib.Core.List.{append_assoc, append-nil}
use grpc_php_rs.Common.{
  ◌≡◌, ◌∙◌, refl, ℕ, Bool, true, not, ◌&&◌, String, List, [], ◌∷◌, ◌++◌, Option, none, some, pos,
  negsuc, get_elem?, All, All-get, str_eq, if◌then◌else◌, Bool-cases, inl, inr, arith,
}
use grpc_php_rs.Extension.{
  Value, text, Constants, constants, ini_entries, IniEntryDef, Registered, reg, register_constants,
  get_module,
}

-- The constants before the first that is refused.
abbrev pub accepted : (String → Bool) → Constants → Constants
accepted refuses [] = []
accepted refuses ((name, value) ∷ rest) =
    if refuses name then [] else (name, value) ∷ accepted refuses rest

abbrev pub none_refused : (String → Bool) → Constants → Bool
none_refused refuses [] = true
none_refused refuses ((name, value) ∷ rest) = not (refuses name) && none_refused refuses rest

abbrev pub value_of : String → Constants → Option Value
value_of name [] = none
value_of name ((n, value) ∷ rest) = if str_eq n name then some value else value_of name rest

module _ (refuses : String → Bool) where
  reg_exact :
      (cs : Constants) (r : Registered)
      → reg refuses cs r ≡ (
        if none_refused refuses cs then pos 0 else negsuc 0,
        record { ini = r.ini; constants = r.constants ++ accepted refuses cs },
      )
  unfolding reg
  reg_exact [] r = cc (append-nil r.constants)
  reg_exact ((name, value) ∷ rest) r = elim (Bool-cases (refuses name)) [
    | inl e ↦ rw e (cc (append-nil r.constants))
    | inr e ↦ rw e (
        reg_exact rest (record r { constants = r.constants ++ (name, value) ∷ [] })
        ∙ cc (append_assoc r.constants ((name, value) ∷ []) (accepted refuses rest)))
  ]

  -- Startup adds the ini entries whatever happens, and returns 0 if the engine refuses no constant,
  -- having added all of them in order; else it returns -1, having added those before the first that
  -- is refused and none after it.
  pub register_constants_exact :
      (r : Registered)
      → register_constants refuses r ≡ (
        if none_refused refuses constants then pos 0 else negsuc 0,
        record {
          ini = r.ini ++ ini_entries;
          constants = r.constants ++ accepted refuses constants;
        },
      )
  unfolding register_constants
  register_constants_exact r = reg_exact constants (record r { ini = r.ini ++ ini_entries })

accepted_all :
    (refuses : String → Bool) (cs : Constants)
    → none_refused refuses cs ≡ true
    → accepted refuses cs ≡ cs
accepted_all refuses [] e = refl
accepted_all refuses ((name, value) ∷ rest) e = ground (arith, accepted_all refuses rest)

values_kept : All (λ (e : String × Value). value_of e.0 constants ≡ some e.1) constants
values_kept = ground arith

-- If the engine refuses no constant, then PHP finds under the name of each the value that it was
-- registered with: no name is given twice. The text of `Grpc\VERSION` is the version of the module.
pub constants_found :
    (refuses : String → Bool) (ini : List IniEntryDef) (i : ℕ) (name : String) (value : Value)
    → none_refused refuses constants ≡ true
    → get_elem? constants i ≡ some (name, value)
    → let started = register_constants refuses (record { ini = ini; constants = [] }) in
      (started.0 ≡ pos 0)
      × (value_of name started.1.constants ≡ some value)
      × (value_of "Grpc\\VERSION" started.1.constants ≡ some (text get_module.version))
unfolding get_module
constants_found refuses ini i name value e p =
    rw
      (
        register_constants_exact refuses (record { ini = ini; constants = [] }),
        e,
        accepted_all refuses constants e,
      )
      (
        refl,
        All-get (λ (c : String × Value). value_of c.0 constants ≡ some c.1) constants i values_kept
            p,
        refl,
      )
