-- ===== src/LogQueue.antt =====
-- internal/runner/log_queue.go: the bounded queue of the log chunks that a remote job has written
-- and the server has not acknowledged. A method runs under the mutex, so it is one step on the state;
-- the channel that wakes waiting goroutines shows as the Wait values of `enqueue`.
pub mod Bounds
pub mod Delivery
pub mod Peek
mod Samples
use forgeci.Base.{
  Bool, List, Option, String, [], drop, false, if◌then◌else◌, leb, length, ltb, min, none, not,
  some, take, true, ℕ, ◌&&◌, ◌*◌, ◌++◌, ◌+◌, ◌-◌, ◌/◌, ◌==◌, ◌>>=◌, ◌>>◌, ◌∷◌,
}

-- store.JobLogStream. A value other than the two is a string of some other text.
pub data Stream : Type 0 where
  stdout stderr : Stream
  other : String → Stream

abbrev pub is_stream : Stream → Bool
is_stream stdout = true
is_stream stderr = true
is_stream (other _) = false

abbrev pub max_pending_log_bytes : ℕ
max_pending_log_bytes = 1048576

abbrev pub max_log_chunk_bytes : ℕ
max_log_chunk_bytes = 65536

abbrev pub max_log_chunks_per_request : ℕ
max_log_chunks_per_request = 8

abbrev pub max_log_append_body_bytes : ℕ
max_log_append_body_bytes = 1048576

pub record Chunk : Type 0 where
  pub sequence : ℕ
  pub stream : Stream
  pub payload : List ℕ

pub data QueueError : Type 0 where
  invalid_chunk invalid_ack closed_queue canceled : QueueError
  upload_failure : String → QueueError

pub record Queue : Type 0 where
  pub chunks : List Chunk
  pub pending : ℕ
  pub sequence : ℕ
  pub closed : Bool
  pub failure : Option QueueError

unfoldable pub new : Queue
new = record { chunks = []; pending = 0; sequence = 0; closed = false; failure = none }

unfoldable pub push : Stream → List ℕ → Queue → Queue
push stream payload q = record q {
  sequence = q.sequence + 1;
  chunks =
      q.chunks ++ record { sequence = q.sequence + 1; stream = stream; payload = payload } ∷ [];
  pending = q.pending + length payload;
}

-- How a wait ends: the context is done, or another call has changed the queue.
pub data Wait : Type 0 where
  done : Wait
  woken : Queue → Wait

pub data Enqueued : Type 0 where
  accepted : ℕ → Queue → Enqueued
  refused : QueueError → Enqueued
  waiting : Enqueued

-- One turn of the loop of Enqueue: what it does while it holds the mutex.
unfoldable pub attempt : Stream → List ℕ → Queue → Enqueued
attempt stream payload q = elim q.failure [
  | some e ↦ refused e
  | none ↦
      if q.closed
      then refused closed_queue
      else if leb (q.pending + length payload) max_pending_log_bytes
      then accepted (q.sequence + 1) (push stream payload q)
      else waiting
]

-- The turns go on while the queue is full; `waits` says how each wait ends.
unfoldable pub retry : Stream → List ℕ → List Wait → Enqueued → Enqueued
retry stream payload waits (accepted n q) = accepted n q
retry stream payload waits (refused e) = refused e
retry stream payload [] waiting = waiting
retry stream payload (done ∷ waits) waiting = refused canceled
retry stream payload (woken q ∷ waits) waiting =
    retry stream payload waits (attempt stream payload q)

unfoldable pub is_valid_chunk : Stream → List ℕ → Bool
is_valid_chunk stream payload =
    is_stream stream && (not (length payload == 0) && leb (length payload) max_log_chunk_bytes)

unfoldable pub enqueue : Stream → List ℕ → List Wait → Queue → Enqueued
enqueue stream payload waits q =
    if is_valid_chunk stream payload
    then retry stream payload waits (attempt stream payload q)
    else refused invalid_chunk

-- The bytes that a chunk takes in a request: base64 and the fields around it.
unfoldable pub encoded : Chunk → ℕ
encoded c = 4 * ((length c.payload + 2) / 3) + 192

-- The loop of PeekBatch, which has copied `taken` chunks and used `used` bytes.
unfoldable pub peek_from : (max_chunks max_body taken used : ℕ) → List Chunk → List Chunk
peek_from max_chunks max_body taken used [] = []
peek_from max_chunks max_body taken used (c ∷ cs) =
    let rest = peek_from max_chunks max_body (taken + 1) (used + encoded c) cs in
    if taken == max_chunks then [] else if ltb max_body (used + encoded c) then [] else c ∷ rest

unfoldable pub peek_batch : (max_chunks max_body : ℕ) → Queue → List Chunk
peek_batch max_chunks max_body q =
    peek_from (min max_chunks max_log_chunks_per_request) (min max_body max_log_append_body_bytes) 0
      512 q.chunks

unfoldable pub payload_bytes : List Chunk → ℕ
payload_bytes [] = 0
payload_bytes (c ∷ cs) = length c.payload + payload_bytes cs

-- Ack: an error, and the queue. A count below 0, which is an error too, is not expressible here.
unfoldable pub ack : ℕ → Queue → Option QueueError × Queue
ack count q = if ltb (length q.chunks) count then (some invalid_ack, q) else (
  none,
  record q {
    pending = q.pending - payload_bytes (take count q.chunks);
    chunks = drop count q.chunks;
  },
)

-- Fail keeps the first error, and ignores a nil one.
unfoldable pub fail : Option QueueError → Queue → Queue
fail none q = q
fail (some e) q = elim q.failure [ none ↦ record q { failure = some e } | some _ ↦ q ]

unfoldable pub close : Queue → Queue
close q = record q { closed = true }

-- One turn of the loop of WaitBatch.
pub data Batch : Type 0 where
  batch : List Chunk → Batch
  stopped : QueueError → Batch
  idle : Batch

abbrev pub stop_reason : Queue → Batch
stop_reason q = elim q.failure [
  | some e ↦ stopped e
  | none ↦ if q.closed then stopped closed_queue else idle
]

unfoldable pub wait_batch : (max_chunks max_body : ℕ) → Queue → Batch
wait_batch max_chunks max_body q = elim (peek_batch max_chunks max_body q) [
  | [] ↦ stop_reason q
  | c ∷ cs ↦ batch (c ∷ cs)
]
