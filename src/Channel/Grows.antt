-- ===== src/Channel/Grows.antt =====
-- What the operations on channels only add to: no flag is lowered, no key is moved to another
-- transport, and no transport is rebuilt.
use mathlib.Core.List.{map-append}
use grpc_php_rs.Common.{
  inr, inl, ℕ, Bool, ◌≡◌, ◌∙◌, refl, ap, String, List, [], ◌∷◌, Option, none, some, map, get_elem?,
  set, Option-cases, zero, suc, true, false, get_elem?-append, get_elem?-exists, get_elem?-lt,
  length-map, ◌<◌, arith, ℤ, length, eq_iff,
}
use grpc_php_rs.Host.{Host, Zval, Table}
use grpc_php_rs.Error.{GrpcError, Result}
use grpc_php_rs.Credentials.{ChannelCredentials}
use grpc_php_rs.Error.Ensures.{Result-cases}
use grpc_php_rs.Channel.Endpoint.{Transport, EndpointConfig}
use grpc_php_rs.Channel.{
  SharedChannel, build_with, Channel, World, Config, find_key, read_config, open_channel, register,
  channel_connecting, existing, connect, construct,
}
use grpc_php_rs.Channel.Connectivity.{get_connectivity_state, opened, check_bool, close, set_state}

-- What the transports were built from.
abbrev pub endpoints : World → List EndpointConfig
endpoints w = map (λ sh. sh.channel) w.shared

-- The later world has all that the earlier one had.
pub record Grows (w w' : World) : Type 0 where
  pub stays_closed : (i : ℕ) → get_elem? w.flags i ≡ some true → get_elem? w'.flags i ≡ some true
  pub stays_registered :
      (key : String) (i : ℕ) → find_key key w.registry ≡ some i → find_key key w'.registry ≡ some i
  pub stays_built :
      (i : ℕ) (e : EndpointConfig)
      → get_elem? (endpoints w) i ≡ some e
      → get_elem? (endpoints w') i ≡ some e

pub Grows-refl : (w : World) → Grows w w
Grows-refl w = record {
  stays_closed = λ i e. e;
  stays_registered = λ key i e. e;
  stays_built = λ i x e. e;
}

pub Grows-trans : {u v w : World} → Grows u v → Grows v w → Grows u w
Grows-trans g h = record {
  stays_closed = λ i e. h.stays_closed i (g.stays_closed i e);
  stays_registered = λ key i e. h.stays_registered key i (g.stays_registered key i e);
  stays_built = λ i x e. h.stays_built i x (g.stays_built i x e);
}

-- A world with the same flags, registry and endpoints.
pub Grows-same :
    {w w' : World}
    → w'.flags ≡ w.flags
    → w'.registry ≡ w.registry
    → endpoints w' ≡ endpoints w
    → Grows w w'
Grows-same f r s = record {
  stays_closed = λ i e. ap (λ x. get_elem? x i) f ∙ e;
  stays_registered = λ key i e. ap (find_key key) r ∙ e;
  stays_built = λ i x e. ap (λ y. get_elem? y i) s ∙ e;
}

raising_keeps :
    (xs : List Bool) (i j : ℕ)
    → get_elem? xs j ≡ some true
    → get_elem? (set xs i true) j ≡ some true
raising_keeps [] i j e = e
raising_keeps (x ∷ xs) zero zero e = refl
raising_keeps (x ∷ xs) zero (suc j) e = e
raising_keeps (x ∷ xs) (suc i) zero e = e
raising_keeps (x ∷ xs) (suc i) (suc j) e = raising_keeps xs i j e

pub close-Grows : (ch : Channel) (w : World) → Grows w (close ch w).1
unfolding close
close-Grows ch w = record {
  stays_closed = λ i e. raising_keeps w.flags ch.closed_flag i e;
  stays_registered = λ key i e. e;
  stays_built = λ i x e. e;
}

pub endpoints_set :
    (xs : List SharedChannel) (i : ℕ) (state : ℤ) {sh : SharedChannel}
    → get_elem? xs i ≡ some sh
    → map (λ sh. sh.channel) (set xs i (record sh { state = state })) ≡ map (λ sh. sh.channel) xs
endpoints_set [] i state e = refl
endpoints_set (x ∷ xs) zero state e = ground arith
endpoints_set (x ∷ xs) (suc i) state e =
    ap (λ (es : List EndpointConfig). x.channel ∷ es) (endpoints_set xs i state e)

pub set_state-Grows : (i : ℕ) (state : ℤ) (w : World) → Grows w (set_state i state w)
unfolding set_state
set_state-Grows i state w = elim (Option-cases (get_elem? w.shared i)) [
  | inl e ↦ rw (e, set_state) (Grows-refl w)
  | inr (sh, e) ↦ rw (e, set_state) (Grows-same refl refl (endpoints_set w.shared i state e))
]

open_channel-Grows : (c : Config) (i : ℕ) (w : World) → Grows w (open_channel c i w).1
unfolding open_channel
open_channel-Grows c i w = record {
  stays_closed = λ j e. get_elem?-append w.flags (false ∷ []) j e;
  stays_registered = λ key j e. e;
  stays_built = λ j x e. e;
}

find_key_add :
    (key : Option String) (n : ℕ) (w : World) (k : String) (i : ℕ)
    → ((k' : String) → key ≡ some k' → find_key k' w.registry ≡ none)
    → find_key k w.registry ≡ some i
    → find_key k (elim key [ none ↦ w.registry | some k' ↦ (k', n) ∷ w.registry ]) ≡ some i
unfolding find_key
find_key_add none n w k i fresh e = e
find_key_add (some k') n w k i fresh e = ground (arith, fresh k' refl, e, eq_iff k' k)

-- A key that was not there is added.
register-Grows :
    (c : Config) (e : EndpointConfig) (w : World)
    → existing c w ≡ none
    → Grows w (register c.persist_key e w)
unfolding register existing
register-Grows c e w fresh = record {
  stays_closed = λ j p. p;
  stays_registered = λ key i p.
      find_key_add c.persist_key (length w.shared) w key i (λ k' q. ground (arith, fresh, q)) p;
  stays_built = λ j x p.
      ap (λ y. get_elem? y j) (map-append (λ (sh : SharedChannel). sh.channel) w.shared _)
      ∙ get_elem?-append (endpoints w) _ j p;
}

module _ ⦃host : Host⦄ (extract : Zval → Option ChannelCredentials) (transport : Transport) where
  connect-Grows :
      (runtime : Result GrpcError ℕ) (c : Config) (w : World)
      → Grows w (connect extract transport runtime c w).1
  unfolding connect
  connect-Grows runtime c w = elim (Option-cases (existing c w)) [
    | inl fresh ↦ elim (Result-cases (build_with extract transport runtime c)) [
      | inr (x, p) ↦ rw (fresh, connect, p) (Grows-refl w)
      | inl (endpoint, p) ↦
          rw (fresh, connect, p)
            (Grows-trans (register-Grows c endpoint w fresh)
              (open_channel-Grows c (length w.shared) (register c.persist_key endpoint w)))
    ]
    | inr (i, found) ↦ rw (found, connect) (open_channel-Grows c i w)
  ]

  pub construct-Grows :
      (runtime : Result GrpcError ℕ) (target : String) (args : Table) (w : World)
      → Grows w (construct extract transport runtime target args w).1
  unfolding construct
  construct-Grows runtime target args w = elim (Result-cases (read_config extract target args)) [
    | inr (x, p) ↦ rw (p, construct) (Grows-refl w)
    | inl (c, p) ↦ rw (p, construct) (connect-Grows runtime c w)
  ]

module _ ⦃host : Host⦄ where
  pub get_connectivity_state-Grows :
      (try_to_connect : Option Zval) (ch : Channel) (runtime : Result GrpcError ℕ)
      (pumped : World → World) (w : World)
      → Grows w (pumped w)
      → Grows w (get_connectivity_state try_to_connect ch runtime pumped w).1
  unfolding get_connectivity_state opened check_bool
  get_connectivity_state-Grows try_to_connect ch runtime pumped w g = elim (Option-cases ch.inner) [
    | inl e ↦ ground (arith, Grows-refl w)
    | inr (inner, e) ↦ ground (
      arith,
      Grows-refl w,
      g,
      Grows-trans g (set_state-Grows inner.shared channel_connecting (pumped w)),
    )
  ]

-- A transport of the earlier world is one of the later.
pub Grows-lt : {w w' : World} (i : ℕ) → Grows w w' → i < length w.shared → i < length w'.shared
Grows-lt {w} {w'} i g h =
    let n = length-map (λ (sh : SharedChannel). sh.channel) w.shared in
    let n' = length-map (λ (sh : SharedChannel). sh.channel) w'.shared in
    let built = get_elem?-exists (endpoints w) i (omega (arith, n, h)) in
    omega (arith, n', get_elem?-lt (endpoints w') i (g.stays_built i built.0 built.1))
