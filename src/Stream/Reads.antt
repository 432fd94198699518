-- ===== src/Stream/Reads.antt =====
-- src/call.rs: what the PHP thread waits for on a stream: a message, the initial metadata, and the
-- trailers.
use grpc_php_rs.Common.{
  ℕ, zero, suc, ◌+◌, Bool, true, false, not, ◌&&◌, ◌||◌, List, [], ◌∷◌, Option, none, some, is_some,
  length, ℤ, if◌then◌else◌,
}
use grpc_php_rs.Metadata.Map.{MetadataMap, Tonic}
use grpc_php_rs.Deadline.{StreamTrailers}
use grpc_php_rs.Stream.{
  streams, Item, message, end_of_stream, failed, Task, starting, forwarding, closing, reporting,
  done, ActiveStream, step, advance,
}

-- How many steps the task has left, if nothing blocks it.
unfoldable pub steps_left : Task → ℕ
steps_left (starting (streams md messages ending)) = length messages + 4
steps_left (starting _) = 3
steps_left (forwarding messages ending) = length messages + 3
steps_left (closing item trailers) = 2
steps_left (reporting trailers) = 1
steps_left done = 0

abbrev pub nonempty : List Item → Bool
nonempty [] = false
nonempty (item ∷ rest) = true

unfoldable pub is_done : Task → Bool
is_done done = true
is_done (starting remote) = false
is_done _ = false

module _ ⦃tonic : Tonic⦄ where
  -- `try_recv`, and `recv` where it finds nothing: the task runs until an item is there or it has
  -- returned. The fuel bounds its steps.
  unfoldable pub receive_from : ℕ → List Item → ℤ → ActiveStream → Option Item × ActiveStream
  receive_from f (item ∷ rest) deadline_usec s = (some item, record s { buffer = rest })
  receive_from zero [] deadline_usec s = (none, s)
  receive_from (suc f) [] deadline_usec s =
      let s' = step deadline_usec s in receive_from f s'.buffer deadline_usec s'

  unfoldable pub receive : ℤ → ActiveStream → Option Item × ActiveStream
  unfolding receive_from steps_left
  receive deadline_usec s = receive_from (steps_left s.task) s.buffer deadline_usec s

  -- Waiting for the initial metadata: a task that has not begun runs until it sends them.
  unfoldable pub await_meta : ℤ → ActiveStream → Option MetadataMap × ActiveStream
  await_meta deadline_usec s =
      let s' = if is_some s.meta_sent then s else step deadline_usec s in (s'.meta_sent, s')

  -- Waiting for the trailers alone: `none` where the task is parked on the full buffer for good.
  unfoldable pub await_trailers : ℕ → ℤ → ActiveStream → Option (Option StreamTrailers)
  await_trailers zero deadline_usec s = none
  await_trailers (suc f) deadline_usec s =
      let rest = await_trailers f deadline_usec (step deadline_usec s) in
      if is_some s.trailers_sent || is_done s.task then some s.trailers_sent else rest

  -- What a received item means to the loop: a message is discarded and the loop goes on; at the end of
  -- the stream, or an error, only the trailers are waited for.
  unfoldable pub on_item :
      (ActiveStream → Option (Option StreamTrailers))
      → ℤ
      → Option Item × ActiveStream
      → Option (Option StreamTrailers)
  on_item continue deadline_usec (some (message bytes), s) = continue s
  on_item continue deadline_usec (some end_of_stream, s) = await_trailers 3 deadline_usec s
  on_item continue deadline_usec (some (failed status), s) = await_trailers 3 deadline_usec s
  on_item continue deadline_usec (none, s) = await_trailers 3 deadline_usec s

  abbrev pub take_item : List Item → ActiveStream → Option Item × ActiveStream
  take_item [] s = (none, s)
  take_item (item ∷ rest) s = (some item, record s { buffer = rest })

  -- One round of `select!` over the trailers and the messages. Where neither is ready the task runs.
  unfoldable pub drain_round :
      (ActiveStream → Option (Option StreamTrailers))
      → ℤ
      → Bool
      → ActiveStream
      → Option (Option StreamTrailers)
  drain_round continue deadline_usec trailers_first s =
      let trailers_ready = is_some s.trailers_sent || is_done s.task in
      let message_ready = nonempty s.buffer || is_done s.task in
      elim (trailers_ready && (trailers_first || not message_ready)) [
        | true ↦ some s.trailers_sent
        | false ↦ elim message_ready [
          | true ↦ on_item continue deadline_usec (take_item s.buffer s)
          | false ↦ continue (step deadline_usec s)
        ]
      ]

  -- The loop that collects the trailers and discards messages. A schedule gives, for each round, how
  -- far the task has run before it and which branch `select!` takes where both are ready; `none` is
  -- the end of the fuel.
  unfoldable pub drain : ℕ → List (ℕ × Bool) → ℤ → ActiveStream → Option (Option StreamTrailers)
  drain zero schedule deadline_usec s = none
  drain (suc f) [] deadline_usec s = drain_round (drain f [] deadline_usec) deadline_usec true s
  drain (suc f) ((n, trailers_first) ∷ schedule) deadline_usec s =
      drain_round (drain f schedule deadline_usec) deadline_usec trailers_first
        (advance n deadline_usec s)
