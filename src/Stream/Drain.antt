-- ===== src/Stream/Drain.antt =====
-- Collecting the trailers of a stream: the loop ends, with the trailers that the task reports.
use grpc_php_rs.Stream.{
  advance, step, Item, message, end_of_stream, failed, Task, starting, forwarding, closing,
  reporting, done, ActiveStream, step_task,
}
use grpc_php_rs.Stream.Reads.{
  take_item, nonempty, drain_round, drain, await_trailers, on_item, is_done,
}
use grpc_php_rs.Common.{
  Bool, ◌||◌, ◌&&◌, not, is_some, Bool-cases, refl, ap, suc, zero, ◌∙◌, true, ◌<◌, false, subst, ℕ,
  ◌≡◌, inl, inr, List, [], ◌∷◌, Option, none, some, length, ℤ, All, arith,
}
use grpc_php_rs.Metadata.Map.{Tonic}
use grpc_php_rs.Deadline.{StreamTrailers}
use grpc_php_rs.Stream.Coherence.{
  IsMessage, IsEarly, Coherent, work, outcome, step-Coherent, outcome-step, advance-Coherent,
  outcome-advance, work-step_empty, work-advance,
}

module _ ⦃tonic : Tonic⦄ where
  step-eq : (t : Task) (d : ℤ) (s : ActiveStream) → s.task ≡ t → step d s ≡ step_task t d s
  unfolding step
  step-eq t d s e = ap (λ (u : Task). step_task u d s) e

  -- Once the last item has been sent the trailers come, or their sender is dropped.
  await_trailers-late :
      (t : Task) (d : ℤ) (s : ActiveStream)
      → s.task ≡ t
      → ¬ IsEarly t
      → Coherent s
      → await_trailers 3 d s ≡ some (outcome d s)
  unfolding await_trailers step_task is_done
  await_trailers-late (starting remote) d s e late c = absurd (late tt)
  await_trailers-late (forwarding ms ending) d s e late c = absurd (late tt)
  await_trailers-late (closing item trailers) d s e late c = absurd (late tt)
  await_trailers-late (reporting trailers) d s e late c =
      ground (arith, step-eq (reporting trailers) d s e, c.unreported)
  await_trailers-late done d s e late c = ground arith

  ready_exact :
      (d : ℤ) (s : ActiveStream)
      → (is_some s.trailers_sent || is_done s.task) ≡ true
      → s.trailers_sent ≡ outcome d s
  unfolding is_done
  ready_exact d s h = ground arith

and_left : (a b : Bool) → (a && b) ≡ true → a ≡ true
and_left true b h = refl
and_left false b h = h

done-late : (t : Task) → is_done t ≡ true → ¬ IsEarly t
unfolding is_done
done-late (starting remote) e early = cc
done-late (forwarding ms ending) e early = cc
done-late (closing item trailers) e early = cc
done-late (reporting trailers) e early = early
done-late done e early = early

pop-Coherent :
    (item : Item) (rest : List Item) (s : ActiveStream)
    → s.buffer ≡ item ∷ rest
    → Coherent s
    → Coherent (record s { buffer = rest })
pop-Coherent item rest s e c = record {
  unreported = c.unreported;
  unended = λ early. (subst (All IsMessage) e (c.unended early)).1;
}

-- A last item in the buffer has been sent.
late_of :
    (item : Item) (rest : List Item) (s : ActiveStream)
    → s.buffer ≡ item ∷ rest
    → ¬ IsMessage item
    → Coherent s
    → ¬ IsEarly s.task
late_of item rest s e last c early = last (subst (All IsMessage) e (c.unended early)).0

module _ ⦃tonic : Tonic⦄ (d : ℤ) (continue : ActiveStream → Option (Option StreamTrailers)) where
  item_exact :
      (item : Item) (rest : List Item) (s : ActiveStream)
      → s.buffer ≡ item ∷ rest
      → Coherent s
      → ((s' : ActiveStream) → Coherent s' → work s' < work s → continue s' ≡ some (outcome d s'))
      → on_item continue d (some item, record s { buffer = rest }) ≡ some (outcome d s)
  unfolding on_item
  item_exact (message b) rest s e c ih =
      ih (record s { buffer = rest }) (pop-Coherent (message b) rest s e c)
        (omega (arith, ap (length {A = Item}) e))
  item_exact end_of_stream rest s e c ih =
      await_trailers-late s.task d (record s { buffer = rest }) refl
        (late_of end_of_stream rest s e (λ u. u) c) (pop-Coherent end_of_stream rest s e c)
  item_exact (failed status) rest s e c ih =
      await_trailers-late s.task d (record s { buffer = rest }) refl
        (late_of (failed status) rest s e (λ u. u) c) (pop-Coherent (failed status) rest s e c)

  empty_exact :
      (s : ActiveStream)
      → s.buffer ≡ []
      → Coherent s
      → ((s' : ActiveStream) → Coherent s' → work s' < work s → continue s' ≡ some (outcome d s'))
      → (elim (is_done s.task) [
        | true ↦ on_item continue d (none, s)
        | false ↦ continue (step d s)
      ])
        ≡ some (outcome d s)
  unfolding on_item
  empty_exact s e c ih = elim (Bool-cases (is_done s.task)) [
    | inl over ↦ rw over (await_trailers-late s.task d s refl (done-late s.task over) c)
    | inr running ↦ rw running (
        ih (step d s) (step-Coherent d s c) (work-step_empty d s e running)
        ∙ ap some (outcome-step d s c))
  ]

  message_exact :
      (buffer : List Item) (s : ActiveStream)
      → s.buffer ≡ buffer
      → Coherent s
      → ((s' : ActiveStream) → Coherent s' → work s' < work s → continue s' ≡ some (outcome d s'))
      → (elim (nonempty buffer || is_done s.task) [
        | true ↦ on_item continue d (take_item buffer s)
        | false ↦ continue (step d s)
      ])
        ≡ some (outcome d s)
  message_exact [] s e c ih = empty_exact s e c ih
  message_exact (item ∷ rest) s e c ih = item_exact item rest s e c ih

  round_exact :
      (trailers_first : Bool) (s : ActiveStream)
      → Coherent s
      → ((s' : ActiveStream) → Coherent s' → work s' < work s → continue s' ≡ some (outcome d s'))
      → drain_round continue d trailers_first s ≡ some (outcome d s)
  unfolding drain_round
  round_exact trailers_first s c ih =
      elim (Bool-cases (
        (is_some s.trailers_sent || is_done s.task)
        && (trailers_first || not (nonempty s.buffer || is_done s.task)))) [
          | inl ready ↦ rw (ready, drain_round) (ap some (ready_exact d s (and_left _ _ ready)))
          | inr wait ↦ rw (wait, drain_round) (message_exact s.buffer s refl c ih)
        ]

module _ ⦃tonic : Tonic⦄ where
  -- On a coherent stream, with fuel for the work that is left, the loop ends, and it returns the trailers that the task
  -- reports (or none, where the task drops their sender): whatever the schedule, that is, however far
  -- the task runs between the rounds and whichever ready branch `select!` takes.
  pub drain_exact :
      (f : ℕ) (schedule : List (ℕ × Bool)) (d : ℤ) (s : ActiveStream)
      → Coherent s
      → work s < f
      → drain f schedule d s ≡ some (outcome d s)
  unfolding drain
  drain_exact zero schedule d s c h = elim h [ ]
  drain_exact (suc f) [] d s c h =
      round_exact d (drain f [] d) true s c λ s' c' less. drain_exact f [] d s' c' (omega arith)
  drain_exact (suc f) ((n, first) ∷ schedule) d s c h =
      round_exact d (drain f schedule d) first (advance n d s) (advance-Coherent n d s c)
        (λ s' c' less. drain_exact f schedule d s' c' (omega (arith, work-advance n d s)))
      ∙ ap some (outcome-advance n d s c)
