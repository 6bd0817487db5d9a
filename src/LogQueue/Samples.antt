-- ===== src/LogQueue/Samples.antt =====
-- A queue that has sent one chunk and holds another: the theorems at it.
use forgeci.Base.{[], arith, false, none, refl, ◌∷◌, ◌≡◌, ◌⊎◌}
use forgeci.LogQueue.{
  Chunk, Queue, attempt, enqueue, is_valid_chunk, payload_bytes, push, retry, stderr, stdout, woken,
}
use forgeci.LogQueue.Bounds.{IsSound, IsWoken, Pushed, enqueue-IsSound}
use forgeci.LogQueue.Delivery.{IsFifo, acknowledge, closes, put, run, run-IsFifo, start}

abbrev held : Chunk
held = record { sequence = 2; stream = stderr; payload = 7 ∷ 8 ∷ [] }

abbrev one_sent : Queue
one_sent = record { chunks = held ∷ []; pending = 2; sequence = 2; closed = false; failure = none }

one_sent-IsSound : IsSound 1 one_sent
unfolding payload_bytes
one_sent-IsSound = record {
  counted = refl;
  bounded = omega arith;
  numbered = (refl, tt);
  last = refl;
  small = ((omega arith, omega arith), tt);
}

enqueue-IsSound_example :
    (p : Queue) × ((p ≡ one_sent) ⊎ IsWoken p (woken one_sent ∷ []))
    × Pushed stdout (9 ∷ []) 3 p (push stdout (9 ∷ []) one_sent)
unfolding enqueue retry attempt is_valid_chunk
enqueue-IsSound_example =
    enqueue-IsSound stdout (9 ∷ []) (woken one_sent ∷ []) one_sent 1 3
      (push stdout (9 ∷ []) one_sent) one_sent-IsSound ((1, one_sent-IsSound), tt) refl

run-IsFifo_example :
    IsFifo (run (put stdout (1 ∷ []) ∷ put stderr (2 ∷ []) ∷ acknowledge 1 ∷ closes ∷ []) start)
run-IsFifo_example =
    run-IsFifo (put stdout (1 ∷ []) ∷ put stderr (2 ∷ []) ∷ acknowledge 1 ∷ closes ∷ [])
