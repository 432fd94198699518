-- ===== src/Credentials/Ids.antt =====
-- The ids of credentials, which key the persistent channels.
use Prim.Native.Nat.{◌%◌}
use grpc_php_rs.Common.{
  ◌-◌, ℕ, suc, ◌+◌, ◌^◌, ◌≤◌, ◌<◌, List, [], ◌∷◌, Option, String, length, arith,
}
use grpc_php_rs.Credentials.{
  ChannelCredentials, CallCredentials, Statics, start, create_ssl, create_composite, create_default,
  set_default_roots_pem, invalidate_default_roots_pem,
}

-- The calls that reach the statics.
pub data Request : Type 0 where
  ssl : Option String → Option String → Option String → Request
  default : Request
  composite : ChannelCredentials → CallCredentials → Request
  set_roots : String → Request
  invalidate : Request

-- The ids that a sequence of calls hands out, in order.
pub ids : List Request → Statics → List ℕ
unfolding create_ssl create_composite create_default set_default_roots_pem
    invalidate_default_roots_pem
ids [] s = []
ids (ssl roots key chain ∷ rs) s = let (c, s') = create_ssl roots key chain s in c.id ∷ ids rs s'
ids (default ∷ rs) s = let (c, s') = create_default s in c.id ∷ ids rs s'
ids (composite channel_creds call_creds ∷ rs) s =
    let (c, s') = create_composite channel_creds call_creds s in c.id ∷ ids rs s'
ids (set_roots pem ∷ rs) s = ids rs (set_default_roots_pem pem s)
ids (invalidate ∷ rs) s = ids rs (invalidate_default_roots_pem s)

-- Every number is at least the bound, and each is larger than the one before.
abbrev pub Ascending : ℕ → List ℕ → Type 0
Ascending n [] = Unit {0}
Ascending n (i ∷ is) = (n ≤ i) × Ascending (suc i) is

Ascending-mono : {m n : ℕ} (is : List ℕ) → m ≤ n → Ascending n is → Ascending m is
Ascending-mono [] h a = tt
Ascending-mono (i ∷ is) h a = (omega arith, a.1)

abbrev bumped : Statics → Statics
bumped s = record s { next = (s.next + 1) % 2 ^ 64 }

ids_from :
    (rs : List Request) (s : Statics) → s.next + length rs < 2 ^ 64 → Ascending s.next (ids rs s)
unfolding ids
ids_from [] s h = tt
ids_from (ssl roots key chain ∷ rs) s h = (
  omega arith,
  Ascending-mono (ids rs (bumped s)) (omega arith) (ids_from rs (bumped s) (omega arith)),
)
ids_from (default ∷ rs) s h = (
  omega arith,
  Ascending-mono (ids rs (bumped s)) (omega arith) (ids_from rs (bumped s) (omega arith)),
)
ids_from (composite channel_creds call_creds ∷ rs) s h = (
  omega arith,
  Ascending-mono (ids rs (bumped s)) (omega arith) (ids_from rs (bumped s) (omega arith)),
)
ids_from (set_roots pem ∷ rs) s h = ids_from rs _ (omega arith)
ids_from (invalidate ∷ rs) s h = ids_from rs _ (omega arith)

-- Of fewer than 2^64 - 1 calls on a fresh process, whatever they are and in whatever order, every
-- credentials object has an id of its own, larger than all before it and never 0, the id that stands
-- for insecure channels.
pub ids_distinct : (rs : List Request) → length rs < 2 ^ 64 - 1 → Ascending 1 (ids rs start)
unfolding start
ids_distinct rs h = ids_from rs start (omega arith)
