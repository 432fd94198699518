-- ===== src/Channel/Rearranged.antt =====
-- The order in which a channel's arguments are written does not matter.
use mathlib.Core.List.Permᴰ
use mathlib.Core.List.{Permᴰ}
use grpc_php_rs.Common.{
  ◌≡◌, ◌≢◌, ◌∙◌, refl, ap, sym, Bool, false, String, List, [], ◌∷◌, ◌++◌, Option, some, eq_iff,
  arith, Option-cases, inl, inr, subst,
}
use grpc_php_rs.Host.{Host, ArrayKey, Zval, Table, entry, get, key_text}
use grpc_php_rs.Error.{ok}
use grpc_php_rs.Error.Ensures.{bind_returned}
use grpc_php_rs.Credentials.{ChannelCredentials}
use grpc_php_rs.Channel.Sort.Laws.{sort-perm}
use grpc_php_rs.Channel.Args.{arg_key, part_of, next_force, validate}
use grpc_php_rs.Channel.{Config, read_config, read_credentials}

module _ ⦃host : Host⦄ where
  -- Two keys that no lookup takes for each other.
  abbrev pub Differ : ArrayKey → ArrayKey → Type 0
  Differ k j =
      ((s : String) → arg_key k ≡ ok s → arg_key j ≢ ok s)
      × ((s : String) → key_text k ≡ some s → key_text j ≢ some s)

  -- The same entries in another order; entries change places if their keys differ.
  pub data Rearranged : Table → Table → Type 0 where
    same : {t : Table} → Rearranged t t
    keeps :
        {t u : Table} (k : ArrayKey) (v : Zval)
        → Rearranged t u
        → Rearranged (entry k v t) (entry k v u)
    swaps :
        {t : Table} (k : ArrayKey) (v : Zval) (j : ArrayKey) (w : Zval)
        → Differ k j
        → Rearranged (entry k v (entry j w t)) (entry j w (entry k v t))
    both : {t u v : Table} → Rearranged t u → Rearranged u v → Rearranged t v

  apart : {k : Option String} (s r : String) → k ≢ some s → k ≡ some r → s ≢ r
  apart s r ne e q = ne (e ∙ ap (λ (x : String). some x) (sym q))

  get_swapped :
      (c : String) (k : ArrayKey) (v : Zval) (j : ArrayKey) (w : Zval) (t : Table)
      → Differ k j
      → get c (entry k v (entry j w t)) ≡ get c (entry j w (entry k v t))
  unfolding get
  get_swapped c k v j w t differ = elim (Option-cases (key_text k)) [
    | inl e ↦ ground arith
    | inr (s, e) ↦ elim (Option-cases (key_text j)) [
      | inl f ↦ ground arith
      | inr (r, f) ↦ ground (arith, apart s r (differ.1 s e) f, eq_iff s c, eq_iff r c)
    ]
  ]

  get-Rearranged : (c : String) {t u : Table} → Rearranged t u → get c t ≡ get c u
  unfolding get
  get-Rearranged c same = refl
  get-Rearranged c (keeps k v r) = cc (get-Rearranged c r)
  get-Rearranged c (swaps {t} k v j w differ) = get_swapped c k v j w t differ
  get-Rearranged c (both r q) = get-Rearranged c r ∙ get-Rearranged c q

append_swap {ℓ} : {A : Type ℓ} (xs ys zs : List A) → Permᴰ (xs ++ (ys ++ zs)) (ys ++ (xs ++ zs))
append_swap [] ys zs = Permᴰ.refl (ys ++ zs)
append_swap (x ∷ xs) ys zs =
    Permᴰ.trans (Permᴰ.cons refl (append_swap xs ys zs)) (Permᴰ.symm (Permᴰ.middle x ys (xs ++ zs)))

module _ ⦃host : Host⦄ where
  -- The parts of the first entry come first, and the rest is read with what it says of `force_new`.
  validate_entry :
      (f : Bool) (k : ArrayKey) (v : Zval) (t : Table) {force : Bool} {parts : List String}
      → validate f (entry k v t) ≡ ok (force, parts)
      → (s : String) × (p : List String) × (more : List String) × (arg_key k ≡ ok s)
        × (part_of s v ≡ ok p)
        × (validate (next_force s v f) t ≡ ok (force, more))
        × (parts ≡ p ++ more)
  unfolding validate
  validate_entry f k v t e =
      let (s, key, e1) = bind_returned (arg_key k) _ e in
      let (p, part, e2) = bind_returned (part_of s v) _ e1 in
      let (more, rest, e3) = bind_returned (validate (next_force s v f) t) _ e2 in
      (s, p, more.1, key, part, cc (rest, e3), cc e3)

  entry_validate :
      (f : Bool) (k : ArrayKey) (v : Zval) (t : Table) {s : String} {p more : List String}
      {force : Bool}
      → arg_key k ≡ ok s
      → part_of s v ≡ ok p
      → validate (next_force s v f) t ≡ ok (force, more)
      → validate f (entry k v t) ≡ ok (force, p ++ more)
  unfolding validate
  entry_validate f k v t a b c = rw (a, b, c) refl

  next_force_comm :
      (s r : String) (v w : Zval) (f : Bool)
      → s ≢ r
      → next_force r w (next_force s v f) ≡ next_force s v (next_force r w f)
  unfolding next_force
  next_force_comm s r v w f ne = ground (arith, eq_iff s "force_new", eq_iff r "force_new")

  -- What validation returns, in another order.
  abbrev Validates : Bool → Table → Bool × List String → Type 0
  Validates f u (force, parts) =
      (parts' : List String) × (validate f u ≡ ok (force, parts')) × Permᴰ parts parts'

  validate-Rearranged :
      {t u : Table} (f force : Bool) (parts : List String)
      → Rearranged t u
      → validate f t ≡ ok (force, parts)
      → Validates f u (force, parts)
  validate-Rearranged f force parts same e = (parts, e, Permᴰ.refl parts)
  validate-Rearranged f force parts (keeps {t} {u} k v r) e =
      let (s, p, more, key, part, rest, whole) = validate_entry f k v t e in
      let (more', rest', perm) = validate-Rearranged (next_force s v f) force more r rest in
      (
        p ++ more',
        entry_validate f k v u key part rest',
        subst (λ ps. Permᴰ ps (p ++ more')) (sym whole) (Permᴰ.append_left p perm),
      )
  validate-Rearranged f force parts (swaps {t} k v j w differ) e =
      let (s, p, more, key, part, rest, whole) = validate_entry f k v (entry j w t) e in
      let (r, q, more', key', part', rest', whole') =
        validate_entry (next_force s v f) j w t rest in
      let comm = next_force_comm s r v w f (λ z. differ.0 s key (key' ∙ ap (λ x. ok x) (sym z))) in
      (
        q ++ (p ++ more'),
        entry_validate f j w (entry k v t) key' part' (
            entry_validate (next_force r w f) k v t key part
              (ap (λ b. validate b t) (sym comm) ∙ rest')),
        subst (λ ps. Permᴰ ps (q ++ (p ++ more')))
            (sym (whole ∙ ap (λ (ms : List String). p ++ ms) whole')) (append_swap p q more'),
      )
  validate-Rearranged f force parts (both r q) e =
      let (parts', e', perm) = validate-Rearranged f force parts r e in
      let (parts'', e'', perm') = validate-Rearranged f force parts' q e' in
      (parts'', e'', Permᴰ.trans perm perm')

module _ ⦃host : Host⦄ (extract : Zval → Option ChannelCredentials) where
  -- The configuration is the same, its key included; it only holds the arguments as they are.
  pub read_config-Rearranged :
      (target : String) {t u : Table} {c : Config}
      → Rearranged t u
      → read_config extract target t ≡ ok c
      → read_config extract target u ≡ ok (record c { args = u })
  unfolding read_config
  read_config-Rearranged target {t} {u} {c} r e =
      let (checked, valid, e1) = bind_returned (validate false t) _ e in
      let (creds, read, e2) = bind_returned (read_credentials extract (get "credentials" t)) _ e1 in
      let (parts, valid', perm) = validate-Rearranged false checked.0 checked.1 r valid in
      rw
        (
          valid',
          sym (get-Rearranged "credentials" r),
          sym (get-Rearranged "grpc.max_receive_message_length" r),
          sym (get-Rearranged "grpc.max_send_message_length" r),
          read,
          sym (sort-perm perm),
        )
        (cc e2)
