-- ===== src/Thread/Objects.antt =====
-- How the objects of a thread hang together: the flags follow the channel objects, and what the
-- objects refer to exists.
use grpc_php_rs.Channel
use grpc_php_rs.Call
use grpc_php_rs.Common.{
  ℕ, ◌<◌, ◌≤◌, ◌≡◌, ◌∙◌, sym, ap, subst, Bool, not, is_some, Option, some, get_elem?, set, length,
  All, All-set, All-mono, All-get, Option-cases, inl, inr, arith, String,
}
use grpc_php_rs.Host.{Host}
use grpc_php_rs.Error.{ok}
use grpc_php_rs.Timeval.{Timeval, Reading}
use grpc_php_rs.Channel.Grows.{Grows, Grows-lt}
use grpc_php_rs.Channel.Reuse.{IsValid}
use grpc_php_rs.Channel.Effects.{Unmoved}
use grpc_php_rs.Channel.{get_tonic_channel, get_shared, get_closed_flag, World, ChannelInner}
use grpc_php_rs.Thread.{Thread}

-- The flag of a channel object has the object's number, and is raised if and only if it is closed; its
-- transport exists.
pub record IsFlagged (w : World) (i : ℕ) (ch : Channel.Channel) : Type 0 where
  pub numbered : ch.closed_flag ≡ i
  pub flagged : get_elem? w.flags i ≡ some (not (is_some ch.inner))
  pub housed : (inner : ChannelInner) → ch.inner ≡ some inner → inner.shared < length w.shared

-- The channel and the transport of a call exist.
abbrev pub Refers : World → Call.State.Call → Type 0
Refers w c =
    (c.channel_closed < length w.flags)
    × ((i : ℕ) → c.channel_shared ≡ some i → i < length w.shared)

pub record IsLinked (t : Thread) : Type 0 where
  pub valid : IsValid t.world
  pub counted : length t.channels ≡ length t.world.flags
  pub objects :
      (i : ℕ) (ch : Channel.Channel) → get_elem? t.channels i ≡ some ch → IsFlagged t.world i ch
  pub referring : All (Refers t.world) t.calls

pub IsValid-Grows : {w w' : World} → w'.registry ≡ w.registry → Grows w w' → IsValid w → IsValid w'
IsValid-Grows {w} {w'} e g v =
    subst (All _) (sym e) (All-mono _ _ w.registry (λ entry p. Grows-lt entry.1 g p) v)

pub IsFlagged-moved :
    {w w' : World} {i : ℕ} {ch : Channel.Channel}
    → get_elem? w'.flags i ≡ get_elem? w.flags i
    → Grows w w'
    → IsFlagged w i ch
    → IsFlagged w' i ch
IsFlagged-moved e g p = record {
  numbered = p.numbered;
  flagged = e ∙ p.flagged;
  housed = λ inner q. Grows-lt inner.shared g (p.housed inner q);
}

pub Refers-moved :
    {w w' : World} (c : Call.State.Call)
    → length w.flags ≤ length w'.flags
    → Grows w w'
    → Refers w c
    → Refers w' c
Refers-moved c h g p = (omega (arith, h, p.0), λ i e. Grows-lt i g (p.1 i e))

-- A new world for the same objects.
pub moved-IsLinked :
    (t : Thread) (w : World) → Unmoved t.world w → IsLinked t → IsLinked (record t { world = w })
moved-IsLinked t w u l = record {
  valid = IsValid-Grows u.1 u.2 l.valid;
  counted = l.counted ∙ ap (length {A = Bool}) (sym u.0);
  objects = λ i ch e. IsFlagged-moved (ap (λ x. get_elem? x i) u.0) u.2 (l.objects i ch e);
  referring =
      All-mono _ _ t.calls (λ c. Refers-moved c (omega (arith, ap (length {A = Bool}) u.0)) u.2)
        l.referring;
}

-- A call that is replaced by one with the same channel.
pub replaced-IsLinked :
    (t : Thread) (i : ℕ) (c c' : Call.State.Call)
    → get_elem? t.calls i ≡ some c
    → c'.channel_closed ≡ c.channel_closed
    → c'.channel_shared ≡ c.channel_shared
    → IsLinked t
    → IsLinked (record t { calls = set t.calls i c' })
replaced-IsLinked t i c c' e f s l =
    let old = All-get (Refers t.world) t.calls i l.referring e in
    record {
      valid = l.valid;
      counted = l.counted;
      objects = l.objects;
      referring =
          All-set (Refers t.world) t.calls i c' l.referring
            (omega (arith, f, old.0), λ j p. old.1 j (sym s ∙ p));
    }

module _ ⦃host : Host⦄ where
  pub constructed_call :
      (ch : Channel.Channel) (method : String) (deadline : Timeval) (host_override : Option String)
      (clock : Reading) {c : Call.State.Call}
      → Call.construct ch method deadline host_override clock ≡ ok c
      → (c.channel_closed ≡ ch.closed_flag)
        × ((i : ℕ)
            → c.channel_shared ≡ some i
            → (inner : ChannelInner) × (ch.inner ≡ some inner) × (inner.shared ≡ i))
  unfolding Call.construct get_tonic_channel get_shared get_closed_flag
  constructed_call ch method deadline host_override clock e = elim (Option-cases ch.inner) [
    | inl p ↦ ground arith
    | inr (inner, p) ↦ (ground arith, λ i q. (inner, p, ground arith))
  ]
