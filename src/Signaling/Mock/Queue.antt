-- ===== src/Signaling/Mock/Queue.antt =====
-- backend/internal/signaling/mock.go: messages are read in the order in which they were put in.
use altair.Prelude.{
  zero, suc, length, ℕ, ◌≡◌, ◌∙◌, refl, sym, ap, false, List, [], ◌∷◌, ◌++◌, Option, none, some,
  arith, append_assoc, append-nil,
}
use altair.Outcome.{Outcome, ok, err, panic, no_fuel}
use altair.Signaling.Mock.{
  MockConn, MockError, no_messages, new_mock_conn, read_message, enqueue_read,
}

unfoldable pub enqueue_all : MockConn → List (List ℕ) → MockConn
enqueue_all m [] = m
enqueue_all m (bytes ∷ rest) = enqueue_all (enqueue_read m bytes) rest

-- What a read has given, before the result of those after it.
unfoldable pub put_before :
    Outcome MockError (List ℕ) → List (List ℕ) × Option MockError → List (List ℕ) × Option MockError
put_before (ok bytes) (more, e) = (bytes ∷ more, e)
put_before (err failure) after = ([], some failure)
put_before panic after = ([], none)
put_before no_fuel after = ([], none)

-- Reads until the first error, which is returned with what was read.
unfoldable pub read_all : ℕ → MockConn → List (List ℕ) × Option MockError
read_all zero m = ([], none)
read_all (suc fuel) m = let (m', got) = read_message m in put_before got (read_all fuel m')

read_more : ℕ → MockConn × Outcome MockError (List ℕ) → List (List ℕ) × Option MockError
read_more fuel (m', got) = put_before got (read_all fuel m')

enqueue_all_queue :
    (m : MockConn) (messages : List (List ℕ))
    → enqueue_all m messages ≡ record m { read_queue = m.read_queue ++ messages }
unfolding enqueue_all enqueue_read
enqueue_all_queue m [] =
    ap (λ (q : List (List ℕ)). record m { read_queue = q }) (sym (append-nil m.read_queue))
enqueue_all_queue m (bytes ∷ rest) =
    enqueue_all_queue (enqueue_read m bytes) rest
    ∙ ap (λ (q : List (List ℕ)). record m { read_queue = q })
        (append_assoc m.read_queue (bytes ∷ []) rest)

read_one :
    (m : MockConn) (bytes : List ℕ) (rest : List (List ℕ))
    → m.closed ≡ false
    → m.read_err ≡ none
    → m.read_queue ≡ bytes ∷ rest
    → read_message m ≡ (record m { read_queue = rest }, ok bytes)
unfolding read_message
read_one m bytes rest up fine e = ground (arith, up, fine, e)

read_all_queue :
    (m : MockConn) (messages : List (List ℕ))
    → m.closed ≡ false
    → m.read_err ≡ none
    → m.read_queue ≡ messages
    → read_all (suc (length messages)) m ≡ (messages, some no_messages)
unfolding read_all read_message put_before read_more
read_all_queue m [] up fine e = rw (up, fine, e, read_all, read_message, put_before) refl
read_all_queue m (bytes ∷ rest) up fine e =
    ap (read_more (suc (length rest))) (read_one m bytes rest up fine e)
    ∙ ap (λ (r : List (List ℕ) × Option MockError). (bytes ∷ r.0, r.1))
        (read_all_queue (record m { read_queue = rest }) rest up fine refl)

-- What is put into a new connection is read back, in its order, and then the queue is empty.
pub read_all-enqueue_all :
    (messages : List (List ℕ))
    → read_all (suc (length messages)) (enqueue_all new_mock_conn messages)
      ≡ (messages, some no_messages)
unfolding new_mock_conn
read_all-enqueue_all messages =
    rw (enqueue_all_queue new_mock_conn messages)
      (read_all_queue (record new_mock_conn { read_queue = messages }) messages refl refl refl)
