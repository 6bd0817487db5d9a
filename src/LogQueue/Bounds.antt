-- ===== src/LogQueue/Bounds.antt =====
-- The queue never holds more payload than its limit, numbers its chunks without a gap, and keeps
-- every chunk small enough for a request.
-- The chunks are numbered from `n + 1` on.
use forgeci.Base.{
  All, All-append, Bool-cases, List, [], arith, drop, inl, inr, length, length-append, length-drop,
  none, refl, subst, suc, take, true, zero, ℕ, ◌++◌, ◌+◌, ◌-◌, ◌∙◌, ◌∷◌, ◌≡◌, ◌≤◌, ◌⊎◌,
}
use forgeci.Compiler.Balance.{pushed}
use forgeci.LogQueue.{
  Chunk, Enqueued, Queue, Stream, Wait, accepted, ack, attempt, done, enqueue, is_valid_chunk,
  max_log_chunk_bytes, max_pending_log_bytes, new, payload_bytes, push, retry, waiting, woken,
}

abbrev pub Numbered : ℕ → List Chunk → Type 0
Numbered n [] = Unit
Numbered n (c ∷ cs) = (c.sequence ≡ suc n) × Numbered (suc n) cs

abbrev pub Fits : Chunk → Type 0
Fits c = (1 ≤ length c.payload) × (length c.payload ≤ max_log_chunk_bytes)

pub record IsSound (acked : ℕ) (q : Queue) : Type 0 where
  pub counted : q.pending ≡ payload_bytes q.chunks
  pub bounded : q.pending ≤ max_pending_log_bytes
  pub numbered : Numbered acked q.chunks
  pub last : acked + length q.chunks ≡ q.sequence
  pub small : All Fits q.chunks

pub new-IsSound : IsSound 0 new
unfolding new payload_bytes
new-IsSound = record {
  counted = refl;
  bounded = omega arith;
  numbered = tt;
  last = omega arith;
  small = tt;
}

payload_bytes-append :
    (xs ys : List Chunk) → payload_bytes (xs ++ ys) ≡ payload_bytes xs + payload_bytes ys
unfolding payload_bytes
payload_bytes-append [] ys = omega arith
payload_bytes-append (x ∷ xs) ys = omega (arith, payload_bytes-append xs ys)

pub Numbered-append :
    (n : ℕ) (xs ys : List Chunk)
    → Numbered n xs
    → Numbered (n + length xs) ys
    → Numbered n (xs ++ ys)
Numbered-append n [] ys a b = subst (λ m. Numbered m ys) (omega arith) b
Numbered-append n (x ∷ xs) ys a b =
    (a.0, Numbered-append (suc n) xs ys a.1 (subst (λ m. Numbered m ys) (omega arith) b))

Numbered-drop :
    (n k : ℕ) (xs : List Chunk) → k ≤ length xs → Numbered n xs → Numbered (n + k) (drop k xs)
Numbered-drop n zero xs h a = subst (λ m. Numbered m xs) (omega arith) a
Numbered-drop n (suc k) [] h a = tt
Numbered-drop n (suc k) (x ∷ xs) h a =
    subst (λ m. Numbered m (drop k xs)) (omega arith) (Numbered-drop (suc n) k xs (omega arith) a.1)

All-drop : (P : Chunk → Type 0) (k : ℕ) (xs : List Chunk) → All P xs → All P (drop k xs)
All-drop P zero xs h = h
All-drop P (suc k) [] h = tt
All-drop P (suc k) (x ∷ xs) h = All-drop P k xs h.1

pub push-IsSound :
    (acked : ℕ) (stream : Stream) (payload : List ℕ) (q : Queue)
    → is_valid_chunk stream payload ≡ true
    → q.pending + length payload ≤ max_pending_log_bytes
    → IsSound acked q
    → IsSound acked (push stream payload q)
unfolding push is_valid_chunk payload_bytes
push-IsSound acked stream payload q valid room s = record {
  counted = omega (
    arith,
    payload_bytes-append q.chunks
        (record { sequence = q.sequence + 1; stream = stream; payload = payload } ∷ []),
    s.counted,
  );
  bounded = room;
  numbered = Numbered-append acked q.chunks _ s.numbered (omega arith, tt);
  last = omega (
    arith,
    length-append q.chunks
        (record { sequence = q.sequence + 1; stream = stream; payload = payload } ∷ []),
  );
  small = All-append Fits q.chunks _ s.small ((ground arith, ground arith), tt);
}

take-drop-payload :
    (k : ℕ) (xs : List Chunk)
    → payload_bytes (take k xs) + payload_bytes (drop k xs) ≡ payload_bytes xs
unfolding payload_bytes
take-drop-payload zero xs = omega arith
take-drop-payload (suc k) [] = refl
take-drop-payload (suc k) (x ∷ xs) = omega (arith, take-drop-payload k xs)

pub ack-cases :
    (count : ℕ) (q : Queue)
    → (ack count q).0 ≡ none
    → (count ≤ length q.chunks)
      × ((ack count q).1 ≡ record q {
        pending = q.pending - payload_bytes (take count q.chunks);
        chunks = drop count q.chunks;
      })
unfolding ack
ack-cases count q h = ground arith

-- If the queue is sound with `acked` chunks acknowledged and an acknowledgement of `count` chunks is
-- accepted, then the queue is sound with `count` more: the oldest are gone, the rest keep their
-- numbers, and the pending bytes are those of the rest.
pub ack-IsSound :
    (acked count : ℕ) (q : Queue)
    → IsSound acked q
    → (ack count q).0 ≡ none
    → IsSound (acked + count) (ack count q).1
ack-IsSound acked count q s h =
    let (within, same) = ack-cases count q h in
    rw same (record {
      counted = omega (arith, s.counted, take-drop-payload count q.chunks);
      bounded = omega (arith, s.bounded);
      numbered = Numbered-drop acked count q.chunks within s.numbered;
      last = omega (arith, length-drop count q.chunks, s.last);
      small = All-drop Fits count q.chunks s.small;
    })

abbrev pub WakesSound : List Wait → Type 0
WakesSound [] = Unit
WakesSound (done ∷ ws) = WakesSound ws
WakesSound (woken q ∷ ws) = ((acked : ℕ) × IsSound acked q) × WakesSound ws

-- The queue that one of the waits finds.
abbrev pub IsWoken : Queue → List Wait → Type 0
IsWoken p [] = ⊥
IsWoken p (done ∷ ws) = IsWoken p ws
IsWoken p (woken q ∷ ws) = (p ≡ q) ⊎ IsWoken p ws

-- What an accepted Enqueue has made of the queue `p`: one chunk more at the end, and the counts.
pub record Appends (stream : Stream) (payload : List ℕ) (n : ℕ) (p q' : Queue) : Type 0 where
  pub chunks :
      q'.chunks ≡ p.chunks ++ record { sequence = n; stream = stream; payload = payload } ∷ []
  pub numbered : n ≡ p.sequence + 1
  pub last : q'.sequence ≡ n
  pub pending : q'.pending ≡ p.pending + length payload
  pub closed : q'.closed ≡ p.closed
  pub failure : q'.failure ≡ p.failure

abbrev pub Pushed : Stream → List ℕ → ℕ → Queue → Queue → Type 0
Pushed stream payload n p q' =
    (acked : ℕ) × IsSound acked p × IsSound acked q' × Appends stream payload n p q'

attempt-Pushed :
    (stream : Stream) (payload : List ℕ) (q : Queue) (acked n : ℕ) (q' : Queue)
    → is_valid_chunk stream payload ≡ true
    → IsSound acked q
    → attempt stream payload q ≡ accepted n q'
    → Pushed stream payload n q q'
attempt-Pushed stream payload q acked n q' valid s h =
    let same : q' ≡ push stream payload q = unfold attempt in ground arith in
    let next : n ≡ q.sequence + 1 = unfold attempt in ground arith in
    let room : q.pending + length payload ≤ max_pending_log_bytes =
      unfold attempt in ground arith in
    (
      acked,
      s,
      rw same (push-IsSound acked stream payload q valid room s),
      rw (same, next)
          (unfold push in
            record {
              chunks = refl;
              numbered = refl;
              last = refl;
              pending = refl;
              closed = refl;
              failure = refl;
            }),
    )

retry-Pushed :
    (stream : Stream) (payload : List ℕ) (ws : List Wait) (q0 : Queue) (e : Enqueued) (n : ℕ)
    (q' : Queue) (acked : ℕ)
    → is_valid_chunk stream payload ≡ true
    → IsSound acked q0
    → attempt stream payload q0 ≡ e
    → WakesSound ws
    → retry stream payload ws e ≡ accepted n q'
    → (p : Queue) × ((p ≡ q0) ⊎ IsWoken p ws) × Pushed stream payload n p q'
unfolding retry
retry-Pushed stream payload [] q0 (accepted m p) n q' acked valid s e w h =
    (q0, inl refl, attempt-Pushed stream payload q0 acked n q' valid s (e ∙ h))
retry-Pushed stream payload (x ∷ ws) q0 (accepted m p) n q' acked valid s e w h =
    (q0, inl refl, attempt-Pushed stream payload q0 acked n q' valid s (e ∙ h))
retry-Pushed stream payload [] q0 (Enqueued.refused r) n q' acked valid s e w h = cc
retry-Pushed stream payload (x ∷ ws) q0 (Enqueued.refused r) n q' acked valid s e w h = cc
retry-Pushed stream payload [] q0 waiting n q' acked valid s e w h = cc
retry-Pushed stream payload (done ∷ ws) q0 waiting n q' acked valid s e w h = cc
retry-Pushed stream payload (woken q ∷ ws) q0 waiting n q' acked valid s e w h =
    let (p, found, pushed) =
      retry-Pushed stream payload ws q (attempt stream payload q) n q' w.0.0 valid w.0.1 refl w.1
        h in
    (p, inr found, pushed)

-- If the queue is sound, and so is every queue that a waiting Enqueue is woken at, then an Enqueue
-- that is accepted has taken the queue that it was called at, or one that it was woken at, and left
-- it with one chunk more at its end, which has the payload and the stream and the number after the
-- last, and with the pending bytes of this chunk added; the result is sound, its pending bytes within
-- the limit.
pub enqueue-IsSound :
    (stream : Stream) (payload : List ℕ) (waits : List Wait) (q : Queue) (acked n : ℕ) (q' : Queue)
    → IsSound acked q
    → WakesSound waits
    → enqueue stream payload waits q ≡ accepted n q'
    → (p : Queue) × ((p ≡ q) ⊎ IsWoken p waits) × Pushed stream payload n p q'
unfolding enqueue
enqueue-IsSound stream payload waits q acked n q' s w h =
    elim (Bool-cases (is_valid_chunk stream payload)) [
      | inl valid ↦
          retry-Pushed stream payload waits q (attempt stream payload q) n q' acked valid s refl w
            (rw valid at h)
      | inr bad ↦ absurd (ground arith)
    ]
