-- ===== src/Channel/Isolated.antt =====
-- Which channel objects have a transport of their own, by the arguments that they are made with.
use grpc_php_rs.Common.{
  ℕ, Bool, true, false, ◌≡◌, ◌∙◌, ◌⊎◌, inl, inr, refl, ap, sym, subst, if◌then◌else◌, String, List,
  [], ◌∷◌, Option, none, some, str_eq, length, arith, Bool-cases, eq_iff, ◌≢◌,
}
use grpc_php_rs.Host.{Host, Zval, Table, nil, entry, null, get}
use grpc_php_rs.Error.{GrpcError, Result, ok, err}
use grpc_php_rs.Error.Ensures.{bind_returned, Result-cases}
use grpc_php_rs.Credentials.{ChannelCredentials, Plugin}
use grpc_php_rs.Channel.Args.{validate, arg_key, part_of, next_force, is_truthy}
use grpc_php_rs.Channel.Endpoint.{Transport}
use grpc_php_rs.Channel.Reuse.{transport_of, IsValid, find_key-lt}
use grpc_php_rs.Channel.{
  World, Channel, Config, read_config, read_credentials, plugin_part, existing, connect, construct,
  open_channel, register, find_key,
}

module _ ⦃host : Host⦄ where
  -- The values that the arguments give under a name.
  abbrev pub values_under : String → Table → List Zval
  values_under name nil = []
  values_under name (entry key val rest) = elim (arg_key key) [
    | err e ↦ values_under name rest
    | ok k ↦ if str_eq k name then val ∷ values_under name rest else values_under name rest
  ]

  next_force_other :
      (k : String) (val : Zval) (force : Bool)
      → str_eq k "force_new" ≡ false
      → next_force k val force ≡ force
  unfolding next_force
  next_force_other k val force other = ground (arith, other)

  next_force_same :
      (k : String) (val : Zval) (force : Bool)
      → str_eq k "force_new" ≡ true
      → next_force k val force ≡ is_truthy val
  unfolding next_force
  next_force_same k val force same =
      subst (λ j. next_force j val force ≡ is_truthy val) (sym ((eq_iff k "force_new").0 same)) refl

  validate_unforced :
      (force : Bool) (args : Table) {checked : Bool × List String}
      → validate force args ≡ ok checked
      → values_under "force_new" args ≡ []
      → checked.0 ≡ force
  unfolding validate
  validate_unforced force nil e none_given = ground (arith, e)
  validate_unforced force (entry key val rest) e none_given =
      let (k, named, e1) = bind_returned (arg_key key) _ e in
      let (part, made, e2) = bind_returned (part_of k val) _ e1 in
      let (more, read, e3) = bind_returned (validate (next_force k val force) rest) _ e2 in
      elim (Bool-cases (str_eq k "force_new")) [
        | inl same ↦ absurd (ground (arith, named, same, none_given))
        | inr other ↦
            let rest_given : values_under "force_new" rest ≡ [] =
              ground (arith, named, other, none_given) in
            ground (
              arith,
              e3,
              validate_unforced (next_force k val force) rest read rest_given,
              next_force_other k val force other,
            )
      ]

  -- The `force_new` of the loop is the argument's, where the arguments give it once.
  validate_forced :
      (force : Bool) (args : Table) (v : Zval) {checked : Bool × List String}
      → validate force args ≡ ok checked
      → values_under "force_new" args ≡ v ∷ []
      → checked.0 ≡ is_truthy v
  unfolding validate
  validate_forced force nil v e given = absurd (cc)
  validate_forced force (entry key val rest) v e given =
      let (k, named, e1) = bind_returned (arg_key key) _ e in
      let (part, made, e2) = bind_returned (part_of k val) _ e1 in
      let (more, read, e3) = bind_returned (validate (next_force k val force) rest) _ e2 in
      elim (Bool-cases (str_eq k "force_new")) [
        | inl same ↦
            let here : val ≡ v = ground (arith, named, same, given) in
            let rest_given : values_under "force_new" rest ≡ [] =
              ground (arith, named, same, given) in
            ground (
              arith,
              e3,
              here,
              validate_unforced (next_force k val force) rest read rest_given,
              next_force_same k val force same,
            )
        | inr other ↦
            let rest_given : values_under "force_new" rest ≡ v ∷ [] =
              ground (arith, named, other, given) in
            ground (arith, e3, validate_forced (next_force k val force) rest v read rest_given)
      ]

module _ ⦃host : Host⦄ (extract : Zval → Option ChannelCredentials) where
  -- The arguments ask for a transport of their own: by a `force_new` that is truthy, or by credentials
  -- with a plugin for every call.
  abbrev pub AsksOwn : Table → Type 0
  AsksOwn args =
      ((v : Zval) × (values_under "force_new" args ≡ v ∷ []) × (is_truthy v ≡ true))
      ⊎ ((v : Zval) × (creds : ChannelCredentials) × (plugin : Plugin) × (get "credentials" args
            ≡ some v)
          × (extract v ≡ some creds)
          × (plugin_part creds.inner ≡ some plugin)
          × (v ≢ null))

  read_credentials-some :
      (v : Zval) (creds : ChannelCredentials) {o : Option ChannelCredentials}
      → extract v ≡ some creds
      → v ≢ null
      → read_credentials extract (some v) ≡ ok o
      → o ≡ some creds
  unfolding read_credentials
  read_credentials-some null creds found given e = absurd (given refl)
  read_credentials-some (Zval.bool b) creds found given e = ground (arith, found)
  read_credentials-some (Zval.long n) creds found given e = ground (arith, found)
  read_credentials-some (Zval.double n) creds found given e = ground (arith, found)
  read_credentials-some (Zval.text s) creds found given e = ground (arith, found)
  read_credentials-some (Zval.arr t) creds found given e = ground (arith, found)
  read_credentials-some (Zval.object o) creds found given e = ground (arith, found)

  -- Such arguments have no key.
  own_key :
      (target : String) (args : Table) {c : Config}
      → read_config extract target args ≡ ok c
      → AsksOwn args
      → c.persist_key ≡ none
  unfolding read_config
  own_key target args e own =
      let (checked, valid, e1) = bind_returned (validate false args) _ e in
      let (creds, read, e2) =
        bind_returned (read_credentials extract (get "credentials" args)) _ e1 in
      elim own [
        | inl (v, given, truthy) ↦
            ground (arith, e2, validate_forced false args v valid given, truthy)
        | inr (v, cr, plugin, given, found, per_call, there) ↦
            let same : creds ≡ some cr =
              read_credentials-some v cr found there
                (ap (read_credentials extract) (sym given) ∙ read) in
            ground (arith, e2, same, per_call)
      ]

module _ ⦃host : Host⦄ (extract : Zval → Option ChannelCredentials) (transport : Transport) where
  keyless :
      (runtime : Result GrpcError ℕ) (target : String) (args : Table) (w : World) {c : Config}
      {ch : Channel}
      → read_config extract target args ≡ ok c
      → c.persist_key ≡ none
      → (construct extract transport runtime target args w).0 ≡ ok ch
      → let w' = (construct extract transport runtime target args w).1 in
        (transport_of (ok ch) ≡ some (length w.shared)) × (w'.registry ≡ w.registry)
  unfolding construct connect open_channel register existing
  keyless runtime target args w p q h = ground arith

  -- A channel that is made from arguments that give a truthy `force_new`, and no other, or credentials
  -- with a plugin for every call, gets a new transport, and leaves the registry as it was; and no key
  -- of the registry leads to that transport. In the world before, the registry names transports that
  -- exist.
  pub construct_isolated :
      (runtime : Result GrpcError ℕ) (target : String) (args : Table) (w : World) {ch : Channel}
      → IsValid w
      → AsksOwn extract args
      → (construct extract transport runtime target args w).0 ≡ ok ch
      → let w' = (construct extract transport runtime target args w).1 in
        (transport_of (ok ch) ≡ some (length w.shared))
        × (w'.registry ≡ w.registry)
        × ((key : String) → find_key key w'.registry ≢ transport_of (ok ch))
  unfolding construct
  construct_isolated runtime target args w {ch} valid own h =
      elim (Result-cases (read_config extract target args)) [
        | inr (x, p) ↦ absurd (ground (arith, p, h))
        | inl (c, p) ↦
            let (new, kept) =
              keyless runtime target args w p (own_key extract target args p own) h in
            (
              new,
              kept,
              λ key found. omega (
                arith,
                find_key-lt (length w.shared) key w.registry (length w.shared) valid
                    (ap (find_key key) (sym kept) ∙ (found ∙ new)),
              ),
            )
      ]
