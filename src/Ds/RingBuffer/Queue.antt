-- ===== src/Ds/RingBuffer/Queue.antt =====
-- The abstract queue: at most `cap` elements, first in first out.
use egl_utils_c.Base.{ℕ, List, [], ◌∷◌, ◌++◌, Bytes, length, ◌==◌, if◌then◌else◌}

-- What a client asks of the queue, and what it sees.
pub data Op : Type 0 where
  put : Bytes → Op
  get : Op

pub data Reply : Type 0 where
  stored : Reply
  full : Reply
  got : Bytes → Reply
  empty : Reply

unfoldable pub enqueue : ℕ → List Bytes → Bytes → Reply × List Bytes
enqueue cap q x = if length q == cap then (full, q) else (stored, q ++ (x ∷ []))

unfoldable pub dequeue : List Bytes → Reply × List Bytes
dequeue [] = (empty, [])
dequeue (x ∷ q) = (got x, q)

unfoldable pub queue_step : ℕ → List Bytes → Op → Reply × List Bytes
unfolding enqueue dequeue
queue_step cap q (put x) = enqueue cap q x
queue_step cap q get = dequeue q

unfoldable pub queue_run : ℕ → List Bytes → List Op → List Reply
unfolding queue_step
queue_run cap q [] = []
queue_run cap q (op ∷ ops) = let (r, q') = queue_step cap q op in r ∷ queue_run cap q' ops
