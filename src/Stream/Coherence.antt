-- ===== src/Stream/Coherence.antt =====
-- What holds of a stream while its task runs: the invariant of the channels, the trailers that the
-- call will end with, and the work that is left.
use grpc_php_rs.Common.{
  zero, suc, length-append, ap, ◌<◌, ◌∙◌, false, ◌≤◌, sym, subst, ℕ, ◌+◌, ◌*◌, ◌≡◌, refl, ◌⊎◌, inl,
  inr, Bool-cases, List, [], ◌∷◌, ◌++◌, Option, none, some, or_else, length, ltb, ℤ, All, arith,
}
use grpc_php_rs.Host.{Bytes}
use grpc_php_rs.Metadata.Map.{Tonic}
use grpc_php_rs.Deadline.{StreamTrailers, deadline_exceeded_trailers}
use grpc_php_rs.Stream.{
  advance, step, Ending, not_ready, ready_elapsed, response_elapsed, refused, streams, Item,
  message, end_of_stream, failed, Task, starting, forwarding, closing, reporting, done,
  ActiveStream, stream_msg_buffer, begin, after_close, push, step_task, status_trailers,
  ending_trailers,
}
use grpc_php_rs.Stream.Reads.{is_done, steps_left}

abbrev pub IsMessage : Item → Type 0
IsMessage (message bytes) = Unit
IsMessage end_of_stream = ⊥
IsMessage (failed status) = ⊥

-- The task has not sent its last item.
abbrev pub IsEarly : Task → Type 0
IsEarly (starting remote) = Unit
IsEarly (forwarding messages ending) = Unit
IsEarly (closing item trailers) = Unit
IsEarly (reporting trailers) = ⊥
IsEarly done = ⊥

-- What holds of a stream at any time: trailers are sent by a task that has returned, and only such a
-- task or one that is about to send them has put its last item into the buffer.
pub record Coherent (s : ActiveStream) : Type 0 where
  pub unreported : (s.task ≡ done) ⊎ (s.trailers_sent ≡ none)
  pub unended : IsEarly s.task → All IsMessage s.buffer

-- What is left to do: two for each step of the task, and one for each item in the buffer.
abbrev pub work : ActiveStream → ℕ
work s = 2 * steps_left s.task + length s.buffer

All-push : (xs : List Item) (b : Bytes) → All IsMessage xs → All IsMessage (xs ++ message b ∷ [])
All-push [] b h = (tt, tt)
All-push (x ∷ xs) b h = (h.0, All-push xs b h.1)

early_facts :
    (t : Task) (s : ActiveStream)
    → s.task ≡ t
    → IsEarly t
    → Coherent s
    → (s.trailers_sent ≡ none) × All IsMessage s.buffer
early_facts t s e early c = (
  elim c.unreported [ inl p ↦ absurd (subst IsEarly (sym e ∙ p) early) | inr q ↦ q ],
  c.unended (subst IsEarly (sym e) early),
)

push-Coherent :
    (b : Bytes) (messages : List Bytes) (ending : Ending) (s : ActiveStream)
    → IsEarly s.task
    → Coherent s
    → Coherent (push (message b) (forwarding messages ending) s)
unfolding push
push-Coherent b messages ending s early c =
    let (q, m) = early_facts s.task s refl early c in
    elim (Bool-cases (ltb (length s.buffer) stream_msg_buffer)) [
      | inl room ↦
          rw (room, push) (record { unreported = inr q; unended = λ u. All-push s.buffer b m })
      | inr full ↦ rw (full, push) c
    ]

closed-Coherent :
    (item : Item) (t : Option StreamTrailers) (s : ActiveStream)
    → s.trailers_sent ≡ none
    → Coherent (record s { buffer = s.buffer ++ item ∷ []; task = after_close t })
unfolding after_close
closed-Coherent item none s q = record { unreported = inl refl; unended = λ u. absurd u }
closed-Coherent item (some t) s q = record { unreported = inr q; unended = λ u. absurd u }

close-Coherent :
    (item : Item) (trailers : Option StreamTrailers) (s : ActiveStream)
    → s.task ≡ closing item trailers
    → Coherent s
    → Coherent (push item (after_close trailers) s)
unfolding push
close-Coherent item trailers s e c =
    let (q, m) = early_facts (closing item trailers) s e tt c in
    elim (Bool-cases (ltb (length s.buffer) stream_msg_buffer)) [
      | inl room ↦ rw (room, push) (closed-Coherent item trailers s q)
      | inr full ↦ rw (full, push) c
    ]

module _ ⦃tonic : Tonic⦄ where
  -- The trailers that a task will send.
  abbrev report : Task → ℤ → Option StreamTrailers
  report (starting (not_ready status)) d = none
  report (starting ready_elapsed) d = some deadline_exceeded_trailers
  report (starting response_elapsed) d = some deadline_exceeded_trailers
  report (starting (refused status now)) d = some (status_trailers status d now)
  report (starting (streams md messages ending)) d = some (ending_trailers ending d)
  report (forwarding messages ending) d = some (ending_trailers ending d)
  report (closing item trailers) d = trailers
  report (reporting trailers) d = some trailers
  report done d = none

  -- The trailers that the call ends with.
  abbrev pub outcome : ℤ → ActiveStream → Option StreamTrailers
  outcome d s = or_else s.trailers_sent (report s.task d)

  step_task-Coherent :
      (t : Task) (d : ℤ) (s : ActiveStream) → s.task ≡ t → Coherent s → Coherent (step_task t d s)
  unfolding step_task begin
  step_task-Coherent (starting (not_ready status)) d s e c =
      let (q, m) = early_facts (starting (not_ready status)) s e tt c in
      record { unreported = inr q; unended = λ u. m }
  step_task-Coherent (starting ready_elapsed) d s e c =
      let (q, m) = early_facts (starting ready_elapsed) s e tt c in
      record { unreported = inr q; unended = λ u. m }
  step_task-Coherent (starting response_elapsed) d s e c =
      let (q, m) = early_facts (starting response_elapsed) s e tt c in
      record { unreported = inr q; unended = λ u. m }
  step_task-Coherent (starting (refused status now)) d s e c =
      let (q, m) = early_facts (starting (refused status now)) s e tt c in
      record { unreported = inr q; unended = λ u. m }
  step_task-Coherent (starting (streams md ms ending)) d s e c =
      let (q, m) = early_facts (starting (streams md ms ending)) s e tt c in
      record { unreported = inr q; unended = λ u. m }
  step_task-Coherent (forwarding [] ending) d s e c =
      let (q, m) = early_facts (forwarding [] ending) s e tt c in
      record { unreported = inr q; unended = λ u. m }
  step_task-Coherent (forwarding (b ∷ rest) ending) d s e c =
      push-Coherent b rest ending s (subst IsEarly (sym e) tt) c
  step_task-Coherent (closing item trailers) d s e c = close-Coherent item trailers s e c
  step_task-Coherent (reporting trailers) d s e c = record {
    unreported = inl refl;
    unended = λ u. absurd u;
  }
  step_task-Coherent done d s e c = c

  outcome-step_task :
      (t : Task) (d : ℤ) (s : ActiveStream)
      → s.task ≡ t
      → Coherent s
      → outcome d (step_task t d s) ≡ outcome d s
  unfolding step_task begin push after_close
  outcome-step_task (starting (not_ready status)) d s e c = ground (arith, c.unreported)
  outcome-step_task (starting ready_elapsed) d s e c = ground (arith, c.unreported)
  outcome-step_task (starting response_elapsed) d s e c = ground (arith, c.unreported)
  outcome-step_task (starting (refused status now)) d s e c = ground (arith, c.unreported)
  outcome-step_task (starting (streams md ms ending)) d s e c = ground (arith, c.unreported)
  outcome-step_task (forwarding [] ending) d s e c = ground (arith, c.unreported)
  outcome-step_task (forwarding (b ∷ rest) ending) d s e c = ground (arith, c.unreported)
  outcome-step_task (closing item none) d s e c = ground (arith, c.unreported)
  outcome-step_task (closing item (some t)) d s e c = ground (arith, c.unreported)
  outcome-step_task (reporting trailers) d s e c = ground (arith, c.unreported)
  outcome-step_task done d s e c = refl

  pub step-Coherent : (d : ℤ) (s : ActiveStream) → Coherent s → Coherent (step d s)
  unfolding step
  step-Coherent d s c = step_task-Coherent s.task d s refl c

  pub outcome-step : (d : ℤ) (s : ActiveStream) → Coherent s → outcome d (step d s) ≡ outcome d s
  unfolding step
  outcome-step d s c = outcome-step_task s.task d s refl c

  work-step_task :
      (t : Task) (d : ℤ) (s : ActiveStream)
      → s.task ≡ t
      → (work (step_task t d s) ≤ work s)
        × (s.buffer ≡ [] → is_done t ≡ false → work (step_task t d s) < work s)
  unfolding step_task begin push after_close steps_left is_done
  work-step_task (starting (not_ready status)) d s e = ground (arith, ap steps_left e)
  work-step_task (starting ready_elapsed) d s e = ground (arith, ap steps_left e)
  work-step_task (starting response_elapsed) d s e = ground (arith, ap steps_left e)
  work-step_task (starting (refused status now)) d s e = ground (arith, ap steps_left e)
  work-step_task (starting (streams md ms ending)) d s e = ground (arith, ap steps_left e)
  work-step_task (forwarding [] ending) d s e = ground (arith, ap steps_left e)
  work-step_task (forwarding (b ∷ rest) ending) d s e =
      ground (arith, ap steps_left e, length-append s.buffer (message b ∷ []))
  work-step_task (closing item none) d s e =
      ground (arith, ap steps_left e, length-append s.buffer (item ∷ []))
  work-step_task (closing item (some t)) d s e =
      ground (arith, ap steps_left e, length-append s.buffer (item ∷ []))
  work-step_task (reporting trailers) d s e = ground (arith, ap steps_left e)
  work-step_task done d s e = (omega arith, λ b f. absurd (cc))

  pub advance-Coherent : (n : ℕ) (d : ℤ) (s : ActiveStream) → Coherent s → Coherent (advance n d s)
  unfolding advance
  advance-Coherent zero d s c = c
  advance-Coherent (suc n) d s c = advance-Coherent n d (step d s) (step-Coherent d s c)

  pub outcome-advance :
      (n : ℕ) (d : ℤ) (s : ActiveStream) → Coherent s → outcome d (advance n d s) ≡ outcome d s
  unfolding advance
  outcome-advance zero d s c = refl
  outcome-advance (suc n) d s c =
      outcome-advance n d (step d s) (step-Coherent d s c) ∙ outcome-step d s c

  work-step : (d : ℤ) (s : ActiveStream) → work (step d s) ≤ work s
  unfolding step
  work-step d s = (work-step_task s.task d s refl).0

  pub work-step_empty :
      (d : ℤ) (s : ActiveStream) → s.buffer ≡ [] → is_done s.task ≡ false → work (step d s) < work s
  unfolding step
  work-step_empty d s = (work-step_task s.task d s refl).1

  pub work-advance : (n : ℕ) (d : ℤ) (s : ActiveStream) → work (advance n d s) ≤ work s
  unfolding advance
  work-advance zero d s = omega arith
  work-advance (suc n) d s = omega (arith, work-advance n d (step d s), work-step d s)
