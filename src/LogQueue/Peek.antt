-- ===== src/LogQueue/Peek.antt =====
-- What PeekBatch returns: a batch that fits in a request, and none only when no chunk waits.
use forgeci.Base.{List, [], ℕ, ◌+◌, ◌∷◌}
use forgeci.LogQueue.{Chunk, encoded}

unfoldable pub batch_bytes : List Chunk → ℕ
batch_bytes [] = 0
batch_bytes (c ∷ cs) = encoded c + batch_bytes cs
