-- ===== src/Thread/Steps.antt =====
-- Every operation keeps the objects of a thread linked.
use grpc_php_rs.Channel
use grpc_php_rs.Call
use grpc_php_rs.Common.{
  ℕ, suc, ◌≡◌, ◌∙◌, sym, ap, subst, Bool, true, false, not, is_some, [], ◌∷◌, ◌++◌, Option, some,
  get_elem?, set, length, All-append, All-mono, get_elem?-append, get_elem?-append_cases,
  get_elem?-set_cases, get_elem?-set_self, get_elem?-set_ne, get_elem?-length, get_elem?-lt,
  length-append, length-set, inl, inr, arith, String, refl,
}
use grpc_php_rs.Host.{Host, Zval, Table}
use grpc_php_rs.Error.{GrpcError, Result, ok}
use grpc_php_rs.Metadata.Map.{Tonic}
use grpc_php_rs.Timeval.{Timeval, Reading}
use grpc_php_rs.Credentials.{ChannelCredentials}
use grpc_php_rs.Channel.Endpoint.{Transport}
use grpc_php_rs.Channel.Grows.{Grows, Grows-lt, construct-Grows, close-Grows}
use grpc_php_rs.Channel.Reuse.{Sound, construct-Sound}
use grpc_php_rs.Channel.Effects.{
  constructed_channel, asks-Unmoved, finish_connect-Unmoved, close_effect,
}
use grpc_php_rs.Channel.{World, ChannelInner}
use grpc_php_rs.Channel.Connectivity.{close}
use grpc_php_rs.Call.State.{CallState, Environment}
use grpc_php_rs.Call.{start_batch, cancel, set_credentials}
use grpc_php_rs.Call.Frame.{start_batch-Framed, start_batch-Grows}
use grpc_php_rs.Thread.Objects.{
  IsLinked, IsFlagged, IsFlagged-moved, Refers-moved, IsValid-Grows, moved-IsLinked,
  replaced-IsLinked, constructed_call, Refers,
}
use grpc_php_rs.Thread.{
  Thread, Step, Reach, after_batch, no_objects, makes_channel, makes_call, runs_batch, cancels,
  sets_credentials, closes, asks, settles, here, next,
}

module _ ⦃host : Host⦄ where
  call_made-IsLinked :
      (t : Thread) (i : ℕ) (method : String) (deadline : Timeval) (host_override : Option String)
      (clock : Reading) {ch : Channel.Channel} {c : Call.State.Call}
      → get_elem? t.channels i ≡ some ch
      → Call.construct ch method deadline host_override clock ≡ ok c
      → IsLinked t
      → IsLinked (record t { calls = t.calls ++ c ∷ [] })
  call_made-IsLinked t i method deadline host_override clock {ch} {c} e made l =
      let made_from = constructed_call ch method deadline host_override clock made in
      let object = l.objects i ch e in
      record {
        valid = l.valid;
        counted = l.counted;
        objects = l.objects;
        referring = All-append (Refers t.world) t.calls c l.referring (
          omega (arith, made_from.0, object.numbered, get_elem?-lt t.world.flags i object.flagged),
          λ j p.
              let inner = made_from.1 j p in omega (arith, object.housed inner.0 inner.1, inner.2),
        );
      }

closed-IsLinked :
    (t : Thread) (i : ℕ) (ch : Channel.Channel)
    → get_elem? t.channels i ≡ some ch
    → IsLinked t
    → IsLinked (record t {
      world = (close ch t.world).1;
      channels = set t.channels i (close ch t.world).0;
    })
closed-IsLinked t i ch e l =
    let effect = close_effect ch t.world in
    let grows = close-Grows ch t.world in
    let object = l.objects i ch e in
    let same = length-set t.world.flags ch.closed_flag true in
    let flags = ap (length {A = Bool}) effect.2 in
    let lt = get_elem?-lt t.world.flags i object.flagged in
    record {
      valid = IsValid-Grows effect.3 grows l.valid;
      counted = omega (arith, l.counted, flags, same, length-set t.channels i (close ch t.world).0);
      objects = λ j ch' p. elim (get_elem?-set_cases t.channels i (close ch t.world).0 j p) [
        | inl q ↦ subst (IsFlagged (close ch t.world).1 j) q.1 (record {
          numbered = effect.0 ∙ (object.numbered ∙ q.0);
          flagged =
              ap (λ fs. get_elem? fs j) effect.2
              ∙ (ap (λ k. get_elem? (set t.world.flags ch.closed_flag true) k)
                    (sym (object.numbered ∙ q.0))
                  ∙ (get_elem?-set_self t.world.flags ch.closed_flag true
                        (omega (arith, object.numbered, lt))
                      ∙ ap (λ (o : Option ChannelInner). some (not (is_some o))) (sym effect.1)));
          housed = λ inner r. absurd (cc (r, effect.1));
        })
        | inr q ↦
            IsFlagged-moved
              (ap (λ fs. get_elem? fs j) effect.2
                ∙ get_elem?-set_ne t.world.flags ch.closed_flag j true
                    (λ z. q.0 (sym object.numbered ∙ z)))
              grows (l.objects j ch' q.1)
      ];
      referring =
          All-mono _ _ t.calls (λ c. Refers-moved c (omega (arith, flags, same)) grows) l.referring;
    }

module _ ⦃host : Host⦄ (extract : Zval → Option ChannelCredentials) (transport : Transport) where
  channel_made-IsLinked :
      (t : Thread) (runtime : Result GrpcError ℕ) (target : String) (args : Table)
      {ch : Channel.Channel} {w : World}
      → Channel.construct extract transport runtime target args t.world ≡ (ok ch, w)
      → IsLinked t
      → IsLinked (record t { world = w; channels = t.channels ++ ch ∷ [] })
  channel_made-IsLinked t runtime target args {ch} {w} e l =
      let effect = constructed_channel extract transport runtime target args t.world e in
      let sound =
        subst Sound e (construct-Sound extract transport runtime target args t.world l.valid) in
      let grows =
        subst (λ r. Grows t.world r.1) e
          (construct-Grows extract transport runtime target args t.world) in
      let flags : length w.flags ≡ suc (length t.world.flags) =
        omega (arith, ap (length {A = Bool}) effect.1, length-append t.world.flags (false ∷ [])) in
      record {
        valid = sound.0;
        counted = omega (arith, flags, l.counted, length-append t.channels (ch ∷ []));
        objects = λ i ch' p. elim (get_elem?-append_cases t.channels ch i p) [
          | inl q ↦
              let object = l.objects i ch' q in
              record {
                numbered = object.numbered;
                flagged =
                    ap (λ fs. get_elem? fs i) effect.1
                    ∙ get_elem?-append t.world.flags (false ∷ []) i object.flagged;
                housed = λ inner r. Grows-lt inner.shared grows (object.housed inner r);
              }
          | inr q ↦ subst (IsFlagged w i) q.1 (record {
            numbered = omega (arith, effect.0, q.0, l.counted);
            flagged =
                ap (λ fs. get_elem? fs i) effect.1
                ∙ (ap (get_elem? (t.world.flags ++ false ∷ [])) (q.0 ∙ l.counted)
                    ∙ (get_elem?-length t.world.flags false
                        ∙ ap (λ (b : Bool). some (not b)) (sym effect.2)));
            housed = λ inner r. sound.1 inner.shared (cc r);
          })
        ];
        referring =
            All-mono _ _ t.calls (λ c. Refers-moved c (omega (arith, flags)) grows) l.referring;
      }

module _ ⦃host : Host⦄ ⦃tonic : Tonic⦄ where
  batch_run-IsLinked :
      (t : Thread) (i : ℕ) (env : Environment) (ops : Table) {c : Call.State.Call}
      → get_elem? t.calls i ≡ some c
      → IsLinked t
      → IsLinked (after_batch t i (start_batch env ops (record { call = c; world = t.world })).1)
  batch_run-IsLinked t i env ops {c} e l =
      let s : CallState = record { call = c; world = t.world } in
      let after = (start_batch env ops s).1 in
      let framed = start_batch-Framed env ops s in
      replaced-IsLinked (record t { world = after.world }) i c after.call e framed.1 framed.0
        (moved-IsLinked t after.world (framed.4.0, framed.4.1, start_batch-Grows env ops s) l)

module _ ⦃host : Host⦄ ⦃tonic : Tonic⦄ (extract : Zval → Option ChannelCredentials)
    (transport : Transport) where
  pub Step-IsLinked : {t u : Thread} → Step extract transport t u → IsLinked t → IsLinked u
  unfolding cancel set_credentials
  Step-IsLinked {t} (makes_channel runtime target args e) l =
      channel_made-IsLinked extract transport t runtime target args e l
  Step-IsLinked {t} (makes_call i method deadline host_override clock e made) l =
      call_made-IsLinked t i method deadline host_override clock e made l
  Step-IsLinked {t} (runs_batch i env ops e) l = batch_run-IsLinked t i env ops e l
  Step-IsLinked {t} (cancels {c = c} i e) l = replaced-IsLinked t i c (cancel c) e refl refl l
  Step-IsLinked {t} (sets_credentials {c = c} i creds e) l =
      replaced-IsLinked t i c (set_credentials creds c).1 e refl refl l
  Step-IsLinked {t} (closes {ch = ch} i e) l = closed-IsLinked t i ch e l
  Step-IsLinked {t} (asks {ch = ch} i try_to_connect runtime e) l =
      moved-IsLinked t _ (asks-Unmoved try_to_connect ch runtime t.world) l
  Step-IsLinked {t} (settles i ready) l =
      moved-IsLinked t _ (finish_connect-Unmoved i ready t.world) l

  pub Reach-IsLinked : {t u : Thread} → Reach extract transport t u → IsLinked t → IsLinked u
  Reach-IsLinked here l = l
  Reach-IsLinked (next reach step) l = Step-IsLinked step (Reach-IsLinked reach l)

no_objects-IsLinked : IsLinked no_objects
no_objects-IsLinked = record {
  valid = tt;
  counted = refl;
  objects = λ i ch e. absurd (cc);
  referring = tt;
}

module _ ⦃host : Host⦄ ⦃tonic : Tonic⦄ (extract : Zval → Option ChannelCredentials)
    (transport : Transport) where
  -- In every state that a thread reaches from no objects, by any operations on any of its channels and
  -- calls in any order: a registered key names a transport that exists; the closed flag of a channel
  -- object is its own, and is raised if and only if the object was closed; and the flag and the
  -- transport that a call refers to exist.
  pub reachable-IsLinked : (t : Thread) → Reach extract transport no_objects t → IsLinked t
  reachable-IsLinked t reach = Reach-IsLinked extract transport reach no_objects-IsLinked
