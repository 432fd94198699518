-- ===== src/Stream/Queue.antt =====
-- The message channel of a stream is a queue: what PHP reads is what the task sends, in order,
-- however far the task has run ahead.
use mathlib.Core.List.{append_assoc}
use grpc_php_rs.Common.{
  ap, ◌≤◌, ◌⊎◌, arith, ℕ, zero, suc, ◌≡◌, refl, ◌∙◌, inl, inr, Bool-cases, List, [], ◌∷◌, ◌++◌,
  Option, none, some, map, length, ltb, ℤ,
}
use grpc_php_rs.Metadata.Map.{Tonic}
use grpc_php_rs.Deadline.{StreamTrailers}
use grpc_php_rs.Stream.{
  Remote, not_ready, ready_elapsed, response_elapsed, refused, streams, Item, message,
  end_of_stream, failed, Task, starting, forwarding, closing, reporting, done, ActiveStream,
  stream_msg_buffer, begin, after_close, push, step_task, step, advance,
}
use grpc_php_rs.Stream.Reads.{receive, steps_left, receive_from}

abbrev items_of : Remote → List Item
items_of (not_ready status) = failed status ∷ []
items_of (streams md messages ending) = map message messages ++ end_of_stream ∷ []
items_of _ = end_of_stream ∷ []

-- The items that the task has yet to send.
abbrev upcoming : Task → List Item
upcoming (starting remote) = items_of remote
upcoming (forwarding messages ending) = map message messages ++ end_of_stream ∷ []
upcoming (closing item trailers) = item ∷ []
upcoming (reporting trailers) = []
upcoming done = []

-- Every item that PHP has yet to read: those in the buffer, then those to come.
abbrev pub pending : ActiveStream → List Item
pending s = s.buffer ++ upcoming s.task

upcoming-after_close : (t : Option StreamTrailers) → upcoming (after_close t) ≡ []
unfolding after_close
upcoming-after_close none = refl
upcoming-after_close (some t) = refl

pending-push :
    (item : Item) (next : Task) (s : ActiveStream)
    → upcoming s.task ≡ item ∷ upcoming next
    → pending (push item next s) ≡ pending s
unfolding push
pending-push item next s e = elim (Bool-cases (ltb (length s.buffer) stream_msg_buffer)) [
  | inl room ↦ ground (arith, append_assoc s.buffer (item ∷ []) (upcoming next))
  | inr full ↦ ground arith
]

module _ ⦃tonic : Tonic⦄ where
  pending-step_task :
      (t : Task) (d : ℤ) (s : ActiveStream) → s.task ≡ t → pending (step_task t d s) ≡ pending s
  unfolding step_task begin
  pending-step_task (starting (not_ready status)) d s e = cc
  pending-step_task (starting ready_elapsed) d s e = cc
  pending-step_task (starting response_elapsed) d s e = cc
  pending-step_task (starting (refused status now)) d s e = cc
  pending-step_task (starting (streams md ms ending)) d s e = cc
  pending-step_task (forwarding [] ending) d s e = cc
  pending-step_task (forwarding (b ∷ rest) ending) d s e =
      pending-push (message b) (forwarding rest ending) s (cc)
  pending-step_task (closing item trailers) d s e =
      pending-push item (after_close trailers) s (cc (upcoming-after_close trailers))
  pending-step_task (reporting trailers) d s e = cc
  pending-step_task done d s e = refl

  pending-step : (d : ℤ) (s : ActiveStream) → pending (step d s) ≡ pending s
  unfolding step
  pending-step d s = pending-step_task s.task d s refl

  pending-advance : (n : ℕ) (d : ℤ) (s : ActiveStream) → pending (advance n d s) ≡ pending s
  unfolding advance
  pending-advance zero d s = refl
  pending-advance (suc n) d s = pending-advance n d (step d s) ∙ pending-step d s

  -- A parked task has a full buffer; where the buffer is empty each step brings the task nearer its end.
  steps_left-step :
      (f : ℕ) (t : Task) (d : ℤ) (s : ActiveStream)
      → s.task ≡ t
      → s.buffer ≡ []
      → steps_left t ≤ suc f
      → steps_left (step_task t d s).task ≤ f
  unfolding step_task begin steps_left push after_close
  steps_left-step f (starting (not_ready status)) d s e b h = omega arith
  steps_left-step f (starting ready_elapsed) d s e b h = omega arith
  steps_left-step f (starting response_elapsed) d s e b h = omega arith
  steps_left-step f (starting (refused status now)) d s e b h = omega arith
  steps_left-step f (starting (streams md ms ending)) d s e b h = omega arith
  steps_left-step f (forwarding [] ending) d s e b h = omega arith
  steps_left-step f (forwarding (x ∷ rest) ending) d s e b h =
      ground (arith, ap (length {A = Item}) b)
  steps_left-step f (closing item none) d s e b h = ground (arith, ap (length {A = Item}) b)
  steps_left-step f (closing item (some t)) d s e b h = ground (arith, ap (length {A = Item}) b)
  steps_left-step f (reporting trailers) d s e b h = omega arith
  steps_left-step f done d s e b h = omega (arith, ap steps_left e)

  -- A read: the first pending item is returned and the rest stay pending; `none` only if none is.
  abbrev pub Reads : List Item → Option Item × ActiveStream → Type 0
  Reads items read =
      ((items ≡ []) × (read.0 ≡ none) × (pending read.1 ≡ []))
      ⊎ ((item : Item) × (items ≡ item ∷ pending read.1) × (read.0 ≡ some item))

  steps_left_done : (t : Task) → steps_left t ≤ 0 → upcoming t ≡ []
  unfolding steps_left
  steps_left_done (starting (not_ready status)) h = absurd (omega arith)
  steps_left_done (starting ready_elapsed) h = absurd (omega arith)
  steps_left_done (starting response_elapsed) h = absurd (omega arith)
  steps_left_done (starting (refused status now)) h = absurd (omega arith)
  steps_left_done (starting (streams md ms ending)) h = absurd (omega arith)
  steps_left_done (forwarding ms ending) h = absurd (omega arith)
  steps_left_done (closing item trailers) h = absurd (omega arith)
  steps_left_done (reporting trailers) h = refl
  steps_left_done done h = refl

  none_pending : (s : ActiveStream) → s.buffer ≡ [] → steps_left s.task ≤ 0 → pending s ≡ []
  none_pending s e h = cc (e, steps_left_done s.task h)

  receive_from-Reads :
      (f : ℕ) (buffer : List Item) (d : ℤ) (s : ActiveStream)
      → s.buffer ≡ buffer
      → steps_left s.task ≤ f
      → Reads (pending s) (receive_from f buffer d s)
  unfolding receive_from
  receive_from-Reads f (item ∷ rest) d s e h =
      inr (item, ap (λ (b : List Item). b ++ upcoming s.task) e, refl)
  receive_from-Reads zero [] d s e h =
      inl (none_pending s e (omega arith), refl, none_pending s e (omega arith))
  receive_from-Reads (suc f) [] d s e h = rw (← pending-step d s) (
      receive_from-Reads f (step d s).buffer d (step d s) refl
        (unfold step in steps_left-step f s.task d s refl e h))

  -- Reading a message gives the first item that is in the buffer or that the task has yet to send, and
  -- leaves the others pending in their order; it gives nothing only once all have been read. This
  -- holds however many steps the task has run before the read.
  pub receive-Reads :
      (n : ℕ) (d : ℤ) (s : ActiveStream) → Reads (pending s) (receive d (advance n d s))
  unfolding receive
  receive-Reads n d s = rw (← pending-advance n d s) (
      receive_from-Reads (steps_left (advance n d s).task) (advance n d s).buffer d (advance n d s)
        refl (omega arith))
