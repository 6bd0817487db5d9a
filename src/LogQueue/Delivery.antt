-- ===== src/LogQueue/Delivery.antt =====
-- The queue as its client sees it: what is accepted is handed out and acknowledged in order.
use forgeci.Base.{
  List, Option, [], ap, append_assoc, arith, drop, length, length-append, length-take, none, refl,
  some, sym, take, take-append-drop, true, ℕ, ◌++◌, ◌+◌, ◌∙◌, ◌∷◌, ◌≡◌, ◌≤◌,
}
use forgeci.LogQueue.{
  Chunk, Enqueued, Queue, QueueError, Stream, accepted, ack, attempt, close, enqueue, fail,
  is_valid_chunk, max_pending_log_bytes, new, push, retry, waiting,
}
use forgeci.LogQueue.Bounds.{
  IsSound, Numbered, Numbered-append, ack-IsSound, ack-cases, new-IsSound, push-IsSound,
}

-- The calls of the writers and of the uploader. A put is one turn of Enqueue, and an
-- acknowledgement follows a successful upload.
pub data Call : Type 0 where
  put : Stream → List ℕ → Call
  acknowledge : ℕ → Call
  breaks : Option QueueError → Call
  closes : Call

-- The queue, with the chunks that Enqueue has accepted and those that were acknowledged.
pub record History : Type 0 where
  pub queue : Queue
  pub accepted_chunks : List Chunk
  pub delivered : List Chunk

abbrev pub start : History
start = record { queue = new; accepted_chunks = []; delivered = [] }

after_put : Stream → List ℕ → Enqueued → History → History
after_put stream payload (accepted n q) h = record h {
  queue = q;
  accepted_chunks =
      h.accepted_chunks ++ record { sequence = n; stream = stream; payload = payload } ∷ [];
}
after_put stream payload (Enqueued.refused e) h = h
after_put stream payload waiting h = h

after_ack : ℕ → Option QueueError × Queue → History → History
after_ack count (none, q) h = record h {
  queue = q;
  delivered = h.delivered ++ take count h.queue.chunks;
}
after_ack count (some e, q) h = record h { queue = q }

pub step : Call → History → History
unfolding after_put after_ack
step (put stream payload) h = after_put stream payload (enqueue stream payload [] h.queue) h
step (acknowledge count) h = after_ack count (ack count h.queue) h
step (breaks e) h = record h { queue = fail e h.queue }
step closes h = record h { queue = close h.queue }

pub run : List Call → History → History
run [] h = h
run (c ∷ cs) h = run cs (step c h)

pub record IsFifo (h : History) : Type 0 where
  pub sound : IsSound (length h.delivered) h.queue
  pub in_order : h.accepted_chunks ≡ h.delivered ++ h.queue.chunks
  pub consecutive : Numbered 0 h.accepted_chunks

start-IsFifo : IsFifo start
start-IsFifo = record { sound = new-IsSound; in_order = unfold new in refl; consecutive = tt }

enqueue-now :
    (stream : Stream) (payload : List ℕ) (q : Queue) (n : ℕ) (q' : Queue)
    → enqueue stream payload [] q ≡ accepted n q'
    → (is_valid_chunk stream payload ≡ true)
      × (q.pending + length payload ≤ max_pending_log_bytes)
      × (q' ≡ push stream payload q)
      × (n ≡ q.sequence + 1)
unfolding enqueue retry attempt
enqueue-now stream payload q n q' h = ground arith

length-accepted : (h : History) → IsFifo h → length h.accepted_chunks ≡ h.queue.sequence
length-accepted h f = omega (
  arith,
  ap (length {A = Chunk}) f.in_order,
  length-append h.delivered h.queue.chunks,
  f.sound.last,
)

put-IsFifo :
    (stream : Stream) (payload : List ℕ) (e : Enqueued) (h : History)
    → IsFifo h
    → enqueue stream payload [] h.queue ≡ e
    → IsFifo (after_put stream payload e h)
unfolding after_put push
put-IsFifo stream payload (accepted n q) h f e =
    let (valid, room, same, number) = enqueue-now stream payload h.queue n q e in
    rw (same, number)
      (record {
        sound = push-IsSound (length h.delivered) stream payload h.queue valid room f.sound;
        in_order = rw f.in_order (append_assoc h.delivered h.queue.chunks _);
        consecutive =
            Numbered-append 0 h.accepted_chunks _ f.consecutive
              (omega (arith, length-accepted h f), tt);
      })
put-IsFifo stream payload (Enqueued.refused x) h f e = f
put-IsFifo stream payload waiting h f e = f

ack-IsFifo :
    (count : ℕ) (r : Option QueueError × Queue) (h : History)
    → IsFifo h
    → ack count h.queue ≡ r
    → IsFifo (after_ack count r h)
unfolding after_ack
ack-IsFifo count (none, q) h f e =
    let fine : (ack count h.queue).0 ≡ none = ap (λ (r : Option QueueError × Queue). r.0) e in
    let q_is : (ack count h.queue).1 ≡ q = ap (λ (r : Option QueueError × Queue). r.1) e in
    let (within, rest) = ack-cases count h.queue fine in
    let grown : length (h.delivered ++ take count h.queue.chunks) ≡ length h.delivered + count =
      length-append h.delivered (take count h.queue.chunks)
      ∙ ap (λ (n : ℕ). length h.delivered + n) (length-take count h.queue.chunks within) in
    record {
      sound = rw (grown, ← q_is) (ack-IsSound (length h.delivered) count h.queue f.sound fine);
      in_order =
          f.in_order
          ∙ ap (◌++◌ h.delivered) (sym (take-append-drop count h.queue.chunks))
          ∙ sym (append_assoc h.delivered (take count h.queue.chunks) (drop count h.queue.chunks))
          ∙ ap (λ (p : Queue). (h.delivered ++ take count h.queue.chunks) ++ p.chunks)
              (sym rest ∙ q_is);
      consecutive = f.consecutive;
    }
ack-IsFifo count (some x, q) h f e =
    let same : q ≡ h.queue = unfold ack in ground arith in
    rw same (record { sound = f.sound; in_order = f.in_order; consecutive = f.consecutive })

-- A call that leaves the chunks, their bytes and the last number alone.
same-IsFifo :
    (h : History) (q : Queue)
    → IsFifo h
    → q.chunks ≡ h.queue.chunks
    → q.pending ≡ h.queue.pending
    → q.sequence ≡ h.queue.sequence
    → IsFifo (record h { queue = q })
same-IsFifo h q f chunks pending sequence = record {
  sound = record {
    counted = rw (pending, chunks) f.sound.counted;
    bounded = rw pending f.sound.bounded;
    numbered = rw chunks f.sound.numbered;
    last = rw (chunks, sequence) f.sound.last;
    small = rw chunks f.sound.small;
  };
  in_order = rw chunks f.in_order;
  consecutive = f.consecutive;
}

fail-IsFifo :
    (e : Option QueueError) (h : History) → IsFifo h → IsFifo (record h { queue = fail e h.queue })
unfolding fail
fail-IsFifo none h f = f
fail-IsFifo (some x) h f = same-IsFifo h _ f (ground arith) (ground arith) (ground arith)

step-IsFifo : (c : Call) (h : History) → IsFifo h → IsFifo (step c h)
unfolding step
step-IsFifo (put stream payload) h f = put-IsFifo stream payload _ h f refl
step-IsFifo (acknowledge count) h f = ack-IsFifo count _ h f refl
step-IsFifo (breaks e) h f = fail-IsFifo e h f
step-IsFifo closes h f =
    same-IsFifo h _ f (unfold close in refl) (unfold close in refl) (unfold close in refl)

run_from-IsFifo : (cs : List Call) (h : History) → IsFifo h → IsFifo (run cs h)
unfolding run
run_from-IsFifo [] h f = f
run_from-IsFifo (c ∷ cs) h f = run_from-IsFifo cs (step c h) (step-IsFifo c h f)

-- After any calls on a new queue, the chunks accepted so far are those acknowledged followed by
-- those in the queue, numbered 1, 2, 3 and so on; and the queue is sound: its pending bytes are
-- counted right and within the limit.
pub run-IsFifo : (cs : List Call) → IsFifo (run cs start)
run-IsFifo cs = run_from-IsFifo cs start start-IsFifo
