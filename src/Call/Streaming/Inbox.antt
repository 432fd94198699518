-- ===== src/Call/Streaming/Inbox.antt =====
-- The messages that PHP reads from a stream, against the queue that a reader would expect.
use grpc_php_rs.Common.{
  ◌∙◌, refl, ap, sym, subst, suc, zero, inl, inr, length, ℕ, ◌≡◌, true, false, List, [], ◌∷◌, ◌++◌,
  Option, none, some, map, is_some, ℤ,
}
use grpc_php_rs.Stream.{
  not_ready, ready_elapsed, response_elapsed, refused, streams, Item, message, end_of_stream,
  failed, Remote, ActiveStream, advance,
}
use grpc_php_rs.Stream.Reads.{receive}
use grpc_php_rs.Stream.Untouched.{cached-advance, cached-receive}
use grpc_php_rs.Stream.Queue.{pending, receive-Reads, Reads}
use grpc_php_rs.Host.{Bytes}
use grpc_php_rs.Metadata.Map.{Tonic}
use grpc_php_rs.Deadline.{Status, StreamTrailers}
use grpc_php_rs.Call.Result.{Property, ResultObject}
use grpc_php_rs.Call.Streaming.{spawned, show_item, read_message}

-- The specification: a queue of messages, which is empty for good once it is.
abbrev inbox_reads : ℕ → List Bytes → List (Option Bytes)
inbox_reads zero unread = []
inbox_reads (suc n) [] = none ∷ inbox_reads n []
inbox_reads (suc n) (bytes ∷ unread) = some bytes ∷ inbox_reads n unread

-- The messages that the peer sends before the stream ends, however it ends.
abbrev pub messages_of : Remote → List Bytes
messages_of (streams md messages ending) = messages
messages_of _ = []

module _ ⦃tonic : Tonic⦄ where
  -- Reads of one message each; before each the task has run some steps, and the clock is at some time.
  abbrev pub read_all : List (ℕ × ℤ) → ℤ → ActiveStream → List ResultObject
  read_all [] d s = []
  read_all ((n, now) ∷ schedule) d s =
      let (result, s') = read_message true d now (advance n d s) in result ∷ read_all schedule d s'

abbrev pub nulls_or_messages : ℕ → List Bytes → List ResultObject
nulls_or_messages n unread =
    map (λ (o : Option Bytes). Property.message o ∷ []) (inbox_reads n unread)

-- What may follow the last message.
data Tail : List Item → Type 0 where
  nothing : Tail []
  ending : Tail (end_of_stream ∷ [])
  failing : (st : Status) → Tail (failed st ∷ [])

-- The stream has these messages left to read.
data Shows (unread : List Bytes) (s : ActiveStream) : Type 0 where
  over : unread ≡ [] → is_some s.cached_trailers ≡ true → Shows unread s
  going :
      (tail : List Item)
      → Tail tail
      → is_some s.cached_trailers ≡ false
      → pending s ≡ map message unread ++ tail
      → Shows unread s

abbrev rest_of : List Bytes → List Bytes
rest_of [] = []
rest_of (bytes ∷ unread) = unread

abbrev first_of : List Bytes → Option Bytes
first_of [] = none
first_of (bytes ∷ unread) = some bytes

-- What a read has to give, and to leave.
abbrev Answers : List Bytes → ResultObject × ActiveStream → Type 0
Answers unread answer =
    (answer.0 ≡ Property.message (first_of unread) ∷ []) × Shows (rest_of unread) answer.1

module _ ⦃tonic : Tonic⦄ where
  answer :
      (d now : ℤ) (unread : List Bytes) {o o' : Option Item} (s : ActiveStream)
      → o ≡ o'
      → Answers unread (show_item d now (o', s))
      → Answers unread (show_item d now (o, s))
  answer d now unread s e p = subst (λ x. Answers unread (show_item d now (x, s))) (sym e) p

  show_item-Answers :
      (d now : ℤ) (unread : List Bytes) (tail : List Item) (o : Option Item) (s : ActiveStream)
      → Tail tail
      → is_some s.cached_trailers ≡ false
      → Reads (map message unread ++ tail) (o, s)
      → Answers unread (show_item d now (o, s))
  unfolding show_item
  show_item-Answers d now [] _ o s nothing open_still (inl p) =
      answer d now [] s p.1 (refl, going [] nothing open_still p.2)
  show_item-Answers d now [] _ o s nothing open_still (inr (item, e, r)) = absurd (cc)
  show_item-Answers d now [] _ o s ending open_still (inl p) = absurd (cc)
  show_item-Answers d now [] _ o s ending open_still (inr (item, e, r)) =
      let same : o ≡ some end_of_stream = cc in
      let rest : pending s ≡ [] = cc in
      answer d now [] s same (refl, going [] nothing open_still rest)
  show_item-Answers d now [] _ o s (failing st) open_still (inl p) = absurd (cc)
  show_item-Answers d now [] _ o s (failing st) open_still (inr (item, e, r)) =
      let same : o ≡ some (failed st) = cc in answer d now [] s same (refl, over refl refl)
  show_item-Answers d now (bytes ∷ unread) tail o s t open_still (inl p) = absurd (cc)
  show_item-Answers d now (bytes ∷ unread) tail o s t open_still (inr (item, e, r)) =
      let same : o ≡ some (message bytes) = cc in
      let rest : pending s ≡ map message unread ++ tail = cc in
      answer d now (bytes ∷ unread) s same (refl, going tail t open_still rest)

  read_message-Answers :
      (n : ℕ) (d now : ℤ) (unread : List Bytes) (s : ActiveStream)
      → Shows unread s
      → Answers unread (read_message true d now (advance n d s))
  unfolding read_message
  read_message-Answers n d now unread s (over e cached) =
      let still : is_some (advance n d s).cached_trailers ≡ true =
        ap (is_some {A = StreamTrailers}) (cached-advance n d s) ∙ cached in
      rw still (
        subst (λ u. Answers u (Property.message none ∷ [], advance n d s)) (sym e)
          (refl, over refl still))
  read_message-Answers n d now unread s (going tail t open_still shape) =
      let still : is_some (advance n d s).cached_trailers ≡ false =
        ap (is_some {A = StreamTrailers}) (cached-advance n d s) ∙ open_still in
      rw still (
        show_item-Answers d now unread tail (receive d (advance n d s)).0
          (receive d (advance n d s)).1 t
          (ap (is_some {A = StreamTrailers}) (cached-receive d (advance n d s)) ∙ still)
          (subst (λ items. Reads items (receive d (advance n d s))) shape (receive-Reads n d s)))

  read_all-Shows :
      (schedule : List (ℕ × ℤ)) (d : ℤ) (unread : List Bytes) (s : ActiveStream)
      → Shows unread s
      → read_all schedule d s ≡ nulls_or_messages (length schedule) unread
  read_all-Shows [] d [] s shows = refl
  read_all-Shows [] d (bytes ∷ unread) s shows = refl
  read_all-Shows ((n, now) ∷ schedule) d [] s shows =
      let answers = read_message-Answers n d now [] s shows in
      cc (answers.0, read_all-Shows schedule d [] _ answers.1)
  read_all-Shows ((n, now) ∷ schedule) d (bytes ∷ unread) s shows =
      let answers = read_message-Answers n d now (bytes ∷ unread) s shows in
      cc (answers.0, read_all-Shows schedule d unread _ answers.1)

spawned-Shows :
    (msg_tx : Option (List Bytes)) (remote : Remote)
    → Shows (messages_of remote) (spawned msg_tx remote)
unfolding spawned
spawned-Shows msg_tx (not_ready st) = going _ (failing st) refl refl
spawned-Shows msg_tx ready_elapsed = going _ ending refl refl
spawned-Shows msg_tx response_elapsed = going _ ending refl refl
spawned-Shows msg_tx (refused st now) = going _ ending refl refl
spawned-Shows msg_tx (streams md messages how) = going _ ending refl refl

module _ ⦃tonic : Tonic⦄ where
  -- Reading from a stream that was opened refines a queue of messages: the reads give the messages of
  -- the peer, each once and in their order, and null from then on, however the stream ends. This is so
  -- for every number of reads, and however far the task has run and whatever the clock says before
  -- each of them, although no more than 32 messages are held at once.
  pub reads-refine-inbox :
      (schedule : List (ℕ × ℤ)) (deadline_usec : ℤ) (msg_tx : Option (List Bytes)) (remote : Remote)
      → read_all schedule deadline_usec (spawned msg_tx remote)
        ≡ nulls_or_messages (length schedule) (messages_of remote)
  reads-refine-inbox schedule deadline_usec msg_tx remote =
      read_all-Shows schedule deadline_usec (messages_of remote) (spawned msg_tx remote)
        (spawned-Shows msg_tx remote)
