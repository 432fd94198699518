-- ===== src/Thread/Closed.antt =====
-- What a closed channel means for its calls, and what no later operation takes back.
use grpc_php_rs.Channel
use grpc_php_rs.Call
use grpc_php_rs.Common.{
  ℕ, ◌≡◌, ◌∙◌, ap, subst, refl, true, Option, some, get_elem?, set, get_elem?-set_self,
  get_elem?-lt, arith,
}
use grpc_php_rs.Host.{Host, Zval, Table}
use grpc_php_rs.Error.{err, runtime_exception}
use grpc_php_rs.Metadata.Map.{Tonic}
use grpc_php_rs.Credentials.{ChannelCredentials}
use grpc_php_rs.Channel.Endpoint.{Transport}
use grpc_php_rs.Channel.Grows.{Grows, Grows-refl, Grows-trans, construct-Grows, close-Grows}
use grpc_php_rs.Channel.Effects.{asks-Unmoved, finish_connect-Unmoved, close_effect}
use grpc_php_rs.Channel.Connectivity.{close}
use grpc_php_rs.Call.State.{Environment}
use grpc_php_rs.Call.{start_batch}
use grpc_php_rs.Call.Guards.{closed_or_cancelled_refused}
use grpc_php_rs.Call.Frame.{start_batch-Grows}
use grpc_php_rs.Thread.Steps.{reachable-IsLinked}
use grpc_php_rs.Thread.{
  Thread, Step, Reach, no_objects, makes_channel, makes_call, runs_batch, cancels, sets_credentials,
  closes, asks, settles, here, next,
}

abbrev pub after_close : Thread → ℕ → Channel.Channel → Thread
after_close t i ch = record t {
  world = (close ch t.world).1;
  channels = set t.channels i (close ch t.world).0;
}

module _ ⦃host : Host⦄ ⦃tonic : Tonic⦄ (extract : Zval → Option ChannelCredentials)
    (transport : Transport) where
  Step-Grows : {t u : Thread} → Step extract transport t u → Grows t.world u.world
  Step-Grows {t} (makes_channel runtime target args e) =
      subst (λ r. Grows t.world r.1) e
        (construct-Grows extract transport runtime target args t.world)
  Step-Grows {t} (makes_call i method deadline host_override clock e made) = Grows-refl t.world
  Step-Grows {t} (runs_batch {c = c} i env ops e) =
      start_batch-Grows env ops (record { call = c; world = t.world })
  Step-Grows {t} (cancels i e) = Grows-refl t.world
  Step-Grows {t} (sets_credentials i creds e) = Grows-refl t.world
  Step-Grows {t} (closes {ch = ch} i e) = close-Grows ch t.world
  Step-Grows {t} (asks {ch = ch} i try_to_connect runtime e) =
      (asks-Unmoved try_to_connect ch runtime t.world).2
  Step-Grows {t} (settles i ready) = (finish_connect-Unmoved i ready t.world).2

  pub Reach-Grows : {t u : Thread} → Reach extract transport t u → Grows t.world u.world
  Reach-Grows {t} here = Grows-refl t.world
  Reach-Grows (next reach step) = Grows-trans (Reach-Grows reach) (Step-Grows step)

  -- Once a channel object is closed, every batch on every call with that object's flag throws a
  -- RuntimeException and changes neither the call nor the world, at any later time and whatever was
  -- done in between, a new channel to the same target included. The state before the close is any
  -- that a thread reaches from no objects.
  pub closed_forever :
      (t : Thread) (i : ℕ) (ch : Channel.Channel) (u : Thread) (c : Call.State.Call)
      (env : Environment) (ops : Table)
      → Reach extract transport no_objects t
      → get_elem? t.channels i ≡ some ch
      → Reach extract transport (after_close t i ch) u
      → c.channel_closed ≡ ch.closed_flag
      → start_batch env ops (record { call = c; world = u.world }) ≡ (
        err (runtime_exception "startBatch Error. Channel is closed"),
        record { call = c; world = u.world },
      )
  closed_forever t i ch u c env ops before here_now later same =
      let object = (reachable-IsLinked extract transport t before).objects i ch here_now in
      let lt = get_elem?-lt t.world.flags i object.flagged in
      let raised =
        ap (λ fs. get_elem? fs ch.closed_flag) (close_effect ch t.world).2
        ∙ get_elem?-set_self t.world.flags ch.closed_flag true
            (omega (arith, object.numbered, lt)) in
      closed_or_cancelled_refused env ops (record { call = c; world = u.world }) true
        (ap (get_elem? u.world.flags) same ∙ (Reach-Grows later).stays_closed ch.closed_flag raised)
        refl
