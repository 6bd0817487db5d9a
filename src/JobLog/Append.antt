-- ===== src/JobLog/Append.antt =====
-- The log of a job is numbered without a gap, and an append either adds the next chunk or is a
-- repetition that changes nothing.
use forgeci.Base.{
  >>=-eq-ok, All, Bool, Bool-cases, List, Option-cases, String, [], ap, append-nil, arith, false,
  if◌then◌else◌, inl, inr, length, none, ok, ok-injective, refl, select_first, select_where, some,
  str_eq_iff, str_eq_refl, subst, suc, true, ℕ, ◌&&◌, ◌++◌, ◌+◌, ◌==◌, ◌∙◌, ◌∷◌, ◌≡◌, ◌≤◌, ◌⊎◌,
}
use forgeci.JobLog.Table.{
  LogChunk, LogTable, bytes_eq, is_chunk_of, max_sequence, put_chunk, put_chunks, rows_of, stamp,
  stream_eq,
}
use forgeci.LogQueue.{Stream, other, stderr, stdout}

abbrev pub Numbered : ℕ → List LogChunk → Type 0
Numbered n [] = Unit
Numbered n (r ∷ rs) = (r.sequence ≡ suc n) × Numbered (suc n) rs

abbrev pub IsContiguous : LogTable → Type 0
IsContiguous t = (run job : String) → Numbered 0 (rows_of run job t.chunks)

max_sequence-Numbered :
    (n : ℕ) (rs : List LogChunk)
    → Numbered n rs
    → (max_sequence rs ≡ 0) × (rs ≡ []) ⊎ (max_sequence rs ≡ n + length rs) × (1 ≤ length rs)
unfolding max_sequence
max_sequence-Numbered n [] h = inl (refl, refl)
max_sequence-Numbered n (r ∷ rs) h = elim (max_sequence-Numbered (suc n) rs h.1) [
  | inl (z, e) ↦ inr (rw e (omega (arith, z)), omega arith)
  | inr (z, k) ↦ inr (omega arith, omega arith)
]

pub max_sequence-length : (rs : List LogChunk) → Numbered 0 rs → max_sequence rs ≡ length rs
max_sequence-length rs h = elim (max_sequence-Numbered 0 rs h) [
  | inl (z, e) ↦ rw e (rw e at z)
  | inr (z, k) ↦ omega arith
]

module _ {A : Type 0} where
  select_where-snoc :
      (p : A → Bool) (xs : List A) (y : A)
      → select_where p (xs ++ y ∷ []) ≡ select_where p xs ++ (if p y then y ∷ [] else [])
  unfolding select_where
  select_where-snoc p [] y = ground arith
  select_where-snoc p (x ∷ xs) y = ground (arith, select_where-snoc p xs y)

  select_first-snoc :
      (p : A → Bool) (xs ys : List A) (x : A)
      → select_first p xs ≡ some x
      → select_first p (xs ++ ys) ≡ some x
  unfolding select_first
  select_first-snoc p [] ys x h = cc
  select_first-snoc p (y ∷ xs) ys x h = ground (arith, select_first-snoc p xs ys x)

  select_first-last :
      (p : A → Bool) (xs : List A) (y : A)
      → select_first p xs ≡ none
      → p y ≡ true
      → select_first p (xs ++ y ∷ []) ≡ some y
  unfolding select_first
  select_first-last p [] y h e = rw e
  select_first-last p (x ∷ xs) y h e = ground (arith, select_first-last p xs y)

pub rows_of-same :
    (run job : String) (rows : List LogChunk) (c : LogChunk)
    → is_chunk_of run job c ≡ true
    → rows_of run job (rows ++ c ∷ []) ≡ rows_of run job rows ++ c ∷ []
unfolding rows_of
rows_of-same run job rows c h =
    select_where-snoc _ rows c ∙ ap (λ zs. select_where (is_chunk_of run job) rows ++ zs) (rw h)

pub rows_of-other :
    (run job : String) (rows : List LogChunk) (c : LogChunk)
    → is_chunk_of run job c ≡ false
    → rows_of run job (rows ++ c ∷ []) ≡ rows_of run job rows
unfolding rows_of
rows_of-other run job rows c h =
    select_where-snoc _ rows c
    ∙ ap (λ zs. select_where (is_chunk_of run job) rows ++ zs) (rw h)
    ∙ append-nil _

pub is_chunk_of-eq :
    (run job : String) (c : LogChunk)
    → is_chunk_of run job c ≡ true
    → (c.run_id ≡ run) × (c.job_name ≡ job)
is_chunk_of-eq run job c h = ground (arith, str_eq_iff c.run_id run, str_eq_iff c.job_name job)

pub is_chunk_of_self : (c : LogChunk) → is_chunk_of c.run_id c.job_name c ≡ true
is_chunk_of_self c = rw (str_eq_refl c.run_id, str_eq_refl c.job_name)

-- The rows of the job that the chunk is for.
abbrev pub rows_for : LogChunk → LogTable → List LogChunk
rows_for c t = rows_of c.run_id c.job_name t.chunks

-- The table has the chunk: under its number stands one with its stream and payload.
abbrev pub IsStored : LogChunk → LogTable → Type 0
IsStored c t =
    (r : LogChunk) × (select_first (λ r. r.sequence == c.sequence) (rows_for c t) ≡ some r)
    × ((stream_eq r.stream c.stream && bytes_eq r.payload c.payload) ≡ true)

-- The chunk is the next of its job, and has been added at the end.
abbrev pub IsAdded : LogChunk → LogTable → LogTable → Type 0
IsAdded c t t' =
    (select_first (λ r. r.sequence == c.sequence) (rows_for c t) ≡ none)
    × (c.sequence ≡ max_sequence (rows_for c t) + 1)
    × (t' ≡ record t { chunks = t.chunks ++ c ∷ [] })

pub put_chunk-cases :
    (c : LogChunk) (t t' : LogTable)
    → put_chunk c t ≡ ok t'
    → ((t' ≡ t) × IsStored c t) ⊎ IsAdded c t t'
unfolding put_chunk
put_chunk-cases c t t' h =
    elim (Option-cases (select_first (λ r. r.sequence == c.sequence) (rows_for c t))) [
      | inl e ↦ inr (e, ground arith, ground arith)
      | inr (r, e) ↦ inl (ground arith, (r, e, ground arith))
    ]

stream_eq_refl : (s : Stream) → stream_eq s s ≡ true
unfolding stream_eq
stream_eq_refl stdout = refl
stream_eq_refl stderr = refl
stream_eq_refl (other a) = str_eq_refl a

bytes_eq_refl : (xs : List ℕ) → bytes_eq xs xs ≡ true
unfolding bytes_eq
bytes_eq_refl [] = refl
bytes_eq_refl (x ∷ xs) = ground (arith, bytes_eq_refl xs)

IsAdded-rows :
    (c : LogChunk) (t t' : LogTable) → IsAdded c t t' → rows_for c t' ≡ rows_for c t ++ c ∷ []
IsAdded-rows c t t' (e, n, same) =
    rw same (rows_of-same c.run_id c.job_name t.chunks c (is_chunk_of_self c))

IsAdded-IsStored : (c : LogChunk) (t t' : LogTable) → IsAdded c t t' → IsStored c t'
IsAdded-IsStored c t t' a = (
  c,
  rw (IsAdded-rows c t t' a) (select_first-last _ (rows_for c t) c a.0 (ground arith)),
  rw (stream_eq_refl c.stream, bytes_eq_refl c.payload),
)

put_chunk-IsStored : (c : LogChunk) (t t' : LogTable) → put_chunk c t ≡ ok t' → IsStored c t'
put_chunk-IsStored c t t' h = elim (put_chunk-cases c t t' h) [
  | inl (same, s) ↦ rw same s
  | inr a ↦ IsAdded-IsStored c t t' a
]

-- A chunk that is stored stays stored.
grow-IsStored :
    (c d : LogChunk) (t : LogTable)
    → IsStored c t
    → IsStored c (record t { chunks = t.chunks ++ d ∷ [] })
grow-IsStored c d t (r, found, same) = elim (Bool-cases (is_chunk_of c.run_id c.job_name d)) [
  | inl e ↦ (
    r,
    rw (rows_of-same c.run_id c.job_name t.chunks d e)
        (select_first-snoc _ (rows_for c t) (d ∷ []) r found),
    same,
  )
  | inr e ↦ (r, rw (rows_of-other c.run_id c.job_name t.chunks d e) found, same)
]

keep-IsStored :
    (c d : LogChunk) (t t' : LogTable) → put_chunk d t ≡ ok t' → IsStored c t → IsStored c t'
keep-IsStored c d t t' h s = elim (put_chunk-cases d t t' h) [
  | inl (same, _) ↦ rw same s
  | inr (_, _, same) ↦ rw same (grow-IsStored c d t s)
]

IsStored-put_chunk : (c : LogChunk) (t : LogTable) → IsStored c t → put_chunk c t ≡ ok t
unfolding put_chunk
IsStored-put_chunk c t (r, found, same) = rw (found, put_chunk, same)

put_chunks-IsStored :
    (clock : ℕ) (cs : List LogChunk) (t t' : LogTable) (c : LogChunk)
    → put_chunks clock cs t ≡ ok t'
    → IsStored c t
    → IsStored c t'
unfolding put_chunks
put_chunks-IsStored clock [] t t' c h s = subst (IsStored c) (ok-injective h) s
put_chunks-IsStored clock (d ∷ ds) t t' c h s =
    let (u, first, rest) = >>=-eq-ok (put_chunk (stamp clock d) t) _ h in
    put_chunks-IsStored clock ds u t' c rest (keep-IsStored c (stamp clock d) t u first s)

pub put_chunks-All :
    (clock : ℕ) (cs : List LogChunk) (t t' : LogTable)
    → put_chunks clock cs t ≡ ok t'
    → All (λ c. IsStored c t') cs
unfolding put_chunks stamp
put_chunks-All clock [] t t' h = tt
put_chunks-All clock (d ∷ ds) t t' h =
    let (u, first, rest) = >>=-eq-ok (put_chunk (stamp clock d) t) _ h in
    (
      put_chunks-IsStored clock ds u t' d rest (put_chunk-IsStored (stamp clock d) t u first),
      put_chunks-All clock ds u t' rest,
    )

pub All-put_chunks :
    (clock : ℕ) (cs : List LogChunk) (t : LogTable)
    → All (λ c. IsStored c t) cs
    → put_chunks clock cs t ≡ ok t
unfolding put_chunks stamp
All-put_chunks clock [] t h = refl
All-put_chunks clock (c ∷ cs) t h =
    rw (IsStored-put_chunk (stamp clock c) t h.0) (All-put_chunks clock cs t h.1)
