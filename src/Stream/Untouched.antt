-- ===== src/Stream/Untouched.antt =====
-- What the task of a stream never writes: the trailers that the PHP thread keeps for itself.
use grpc_php_rs.Common.{ℕ, zero, suc, refl, ◌≡◌, ◌∙◌, List, [], ◌∷◌, ℤ, arith}
use grpc_php_rs.Metadata.Map.{Tonic}
use grpc_php_rs.Stream.{
  not_ready, ready_elapsed, response_elapsed, refused, streams, Item, Task, starting, forwarding,
  closing, reporting, done, ActiveStream, begin, push, step_task, step, advance,
}
use grpc_php_rs.Stream.Reads.{receive_from, receive}

cached-push :
    (item : Item) (next : Task) (s : ActiveStream)
    → (push item next s).cached_trailers ≡ s.cached_trailers
unfolding push
cached-push item next s = ground arith

module _ ⦃tonic : Tonic⦄ where
  cached-step_task :
      (t : Task) (d : ℤ) (s : ActiveStream) → (step_task t d s).cached_trailers ≡ s.cached_trailers
  unfolding step_task begin
  cached-step_task (starting (not_ready status)) d s = refl
  cached-step_task (starting ready_elapsed) d s = refl
  cached-step_task (starting response_elapsed) d s = refl
  cached-step_task (starting (refused status now)) d s = refl
  cached-step_task (starting (streams md ms ending)) d s = refl
  cached-step_task (forwarding [] ending) d s = refl
  cached-step_task (forwarding (b ∷ rest) ending) d s = cached-push _ (forwarding rest ending) s
  cached-step_task (closing item trailers) d s = cached-push item _ s
  cached-step_task (reporting trailers) d s = refl
  cached-step_task done d s = refl

  cached-step : (d : ℤ) (s : ActiveStream) → (step d s).cached_trailers ≡ s.cached_trailers
  unfolding step
  cached-step d s = cached-step_task s.task d s

  pub cached-advance :
      (n : ℕ) (d : ℤ) (s : ActiveStream) → (advance n d s).cached_trailers ≡ s.cached_trailers
  unfolding advance
  cached-advance zero d s = refl
  cached-advance (suc n) d s = cached-advance n d (step d s) ∙ cached-step d s

  cached-receive_from :
      (f : ℕ) (buffer : List Item) (d : ℤ) (s : ActiveStream)
      → (receive_from f buffer d s).1.cached_trailers ≡ s.cached_trailers
  unfolding receive_from
  cached-receive_from f (item ∷ rest) d s = refl
  cached-receive_from zero [] d s = refl
  cached-receive_from (suc f) [] d s =
      cached-receive_from f (step d s).buffer d (step d s) ∙ cached-step d s

  pub cached-receive :
      (d : ℤ) (s : ActiveStream) → (receive d s).1.cached_trailers ≡ s.cached_trailers
  unfolding receive
  cached-receive d s = cached-receive_from _ s.buffer d s
