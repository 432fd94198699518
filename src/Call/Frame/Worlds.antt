-- ===== src/Call/Frame/Worlds.antt =====
-- Worlds that differ in the states of some transports alone.
use grpc_php_rs.Common.{
  All, [], ◌∷◌, ◌∙◌, inr, inl, Option-cases, ℕ, ◌≡◌, ◌≢◌, ap, List, Option, none, some, get_elem?,
  get_elem?-set_ne, ℤ,
}
use grpc_php_rs.Stream.{ActiveStream}
use grpc_php_rs.Channel.Grows.{endpoints, endpoints_set}
use grpc_php_rs.Channel.{World}
use grpc_php_rs.Channel.Connectivity.{set_state, write_states}
use grpc_php_rs.Call.State.{Environment}
use grpc_php_rs.Call.Streaming.{publish}
use grpc_php_rs.Call.Unary.{update_shared}

-- No write is to this transport.
abbrev pub Elsewhere : ℕ → List (ℕ × ℤ) → Type 0
Elsewhere j writes = All (λ (x : ℕ × ℤ). x.0 ≢ j) writes

-- A transport that is not the call's own and that no other task writes to.
abbrev pub IsIdle : Environment → Option ℕ → ℕ → Type 0
IsIdle env own j =
    (own ≢ some j)
    × Elsewhere j env.pump_writes
    × Elsewhere j env.read_writes
    × Elsewhere j env.later_writes

module _ (Same : ℕ → Type 0) where
  -- The world after is the one before, but for the states of some transports.
  abbrev pub Beside : World → World → Type 0
  Beside w w' =
      (w'.flags ≡ w.flags)
      × (w'.registry ≡ w.registry)
      × (endpoints w' ≡ endpoints w)
      × ((j : ℕ) → Same j → get_elem? w'.shared j ≡ get_elem? w.shared j)

  pub set_state-Beside :
      (i : ℕ) (state : ℤ) (w w' : World)
      → ((j : ℕ) → Same j → i ≢ j)
      → Beside w w'
      → Beside w (set_state i state w')
  unfolding set_state
  set_state-Beside i state w w' others b = elim (Option-cases (get_elem? w'.shared i)) [
    | inl e ↦ rw (e, set_state) b
    | inr (sh, e) ↦
        rw (e, set_state)
          (
            b.0,
            b.1,
            endpoints_set w'.shared i state e ∙ b.2,
            λ j same. get_elem?-set_ne w'.shared i j _ (others j same) ∙ b.3 j same,
          )
  ]

  pub write_states-Beside :
      (writes : List (ℕ × ℤ)) (w w' : World)
      → ((j : ℕ) → Same j → Elsewhere j writes)
      → Beside w w'
      → Beside w (write_states writes w')
  unfolding write_states
  write_states-Beside [] w w' others b = b
  write_states-Beside ((i, state) ∷ rest) w w' others b =
      write_states-Beside rest w (set_state i state w') (λ j same. (others j same).1)
        (set_state-Beside i state w w' (λ j same. (others j same).0) b)

  pub update_shared-Beside :
      (own : Option ℕ) (state : ℤ) (w w' : World)
      → ((j : ℕ) → Same j → own ≢ some j)
      → Beside w w'
      → Beside w (update_shared own state w')
  unfolding update_shared
  update_shared-Beside none state w w' others b = b
  update_shared-Beside (some i) state w w' others b =
      set_state-Beside i state w w' (λ j same q. others j same (ap some q)) b

  publish_on-Beside :
      (i : ℕ) (state : Option ℤ) (w w' : World)
      → ((j : ℕ) → Same j → i ≢ j)
      → Beside w w'
      → Beside w (elim state [ none ↦ w' | some v ↦ set_state i v w' ])
  publish_on-Beside i none w w' others b = b
  publish_on-Beside i (some v) w w' others b = set_state-Beside i v w w' others b

  pub publish-Beside :
      (own : Option ℕ) (s : ActiveStream) (w w' : World)
      → ((j : ℕ) → Same j → own ≢ some j)
      → Beside w w'
      → Beside w (publish own s w')
  unfolding publish
  publish-Beside none s w w' others b = b
  publish-Beside (some i) s w w' others b =
      publish_on-Beside i s.connectivity w w' (λ j same q. others j same (ap some q)) b
