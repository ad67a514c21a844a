-- ===== src/Ds/RingBuffer/Refine.antt =====
-- A client of ring_buffer.c that pushes and pops: what it sees is what it would see of the bounded
-- queue of Queue.antt.
use egl_utils_c.Base.{
  ℕ, ◌≤◌, zero, subst, ◌≡◌, refl, sym, ap₂, ◌∙◌, arith, Bool, true, false, Option, none, some, List,
  [], ◌∷◌, Bytes, length, bytes_of, replicate, length-replicate, overwrite_all, Ensures-some, inl,
  inr, ◌==◌, if◌then◌else◌, ◌>>=◌, overwrite,
}
use egl_utils_c.Ds.RingBuffer.{RingBuffer, push, pop}
use egl_utils_c.Ds.RingBuffer.Queue.{
  Op, put, get, Reply, stored, full, got, empty, enqueue, queue_step, queue_run,
}
use egl_utils_c.Ds.RingBuffer.Contents.{IsValid, queue_of}
use egl_utils_c.Ds.RingBuffer.Push.{Enqueued, push-Enqueued}
use egl_utils_c.Ds.RingBuffer.Pop.{Dequeued, pop-Dequeued}

-- The elements that are pushed have the size given at init.
abbrev pub AllFit : ℕ → List Op → Type 0
AllFit size [] = Unit {0}
AllFit size (put x ∷ ops) = (length x ≡ size) × AllFit size ops
AllFit size (get ∷ ops) = AllFit size ops

AllFit-head : (n : ℕ) (op : Op) (ops : List Op) → AllFit n (op ∷ ops) → AllFit n (op ∷ [])
AllFit-head n (put x) ops fit = (fit.0, tt)
AllFit-head n get ops fit = tt

AllFit-tail : (n : ℕ) (op : Op) (ops : List Op) → AllFit n (op ∷ ops) → AllFit n ops
AllFit-tail n (put x) ops fit = fit.1
AllFit-tail n get ops fit = fit

module _ {S : Type 0} where
  -- One call of the client, with a buffer of one element for pop.
  unfoldable pub ring_step : RingBuffer S → Op → Option (Reply × Option (RingBuffer S))
  ring_step rb (put x) = do
    (done, rb') ← push (some rb) (some x)
    some (if done then stored else full, rb')
  ring_step rb get = do
    (done, rb', out) ← pop (some rb) (some (replicate rb.elem_size 0))
    some (if done then got (bytes_of out) else empty, rb')

  unfoldable pub ring_run : Option (RingBuffer S) → List Op → Option (List Reply)
  unfolding ring_step
  ring_run rb [] = some []
  ring_run none (op ∷ ops) = none
  ring_run (some rb) (op ∷ ops) = do
    (r, rb') ← ring_step rb op
    rs ← ring_run rb' ops
    some (r ∷ rs)

  -- What one call must give, against a call of the queue.
  abbrev Matches :
      RingBuffer S → Reply × List Bytes → Option (Reply × Option (RingBuffer S)) → Type 0
  Matches rb (r, q) o =
      (rb' : RingBuffer S) × (o ≡ some (r, some rb'))
      × IsValid rb'
      × (rb'.capacity ≡ rb.capacity)
      × (rb'.elem_size ≡ rb.elem_size)
      × (queue_of rb' ≡ q)

  put-Matches :
      (rb : RingBuffer S) (x : Bytes)
      → IsValid rb
      → length x ≡ rb.elem_size
      → Matches rb (enqueue rb.capacity (queue_of rb) x) (ring_step rb (put x))
  unfolding ring_step enqueue
  put-Matches rb x v fit = go (Ensures-some (Enqueued rb v x) _ (push-Enqueued rb v x fit))
    where
      go :
          (a : Bool × Option (RingBuffer S)) × (push (some rb) (some x) ≡ some a)
            × Enqueued rb v x a
          → Matches rb (enqueue rb.capacity (queue_of rb) x) (ring_step rb (put x))
      go ((done, out), e, inl (refused, at_cap, same)) =
          let test : (length (queue_of rb) == rb.capacity) ≡ true = ground arith in
          rw (test, e, refused, same) (rb, refl, v, refl, refl, refl)
      go ((done, out), e, inr (rb', accepted, room, is, v', cap, size, q)) =
          let test : (length (queue_of rb) == rb.capacity) ≡ false = ground arith in
          rw (test, e, accepted, is) (rb', refl, v', cap, size, q)

  get-Matches :
      (rb : RingBuffer S)
      → IsValid rb
      → Matches rb (queue_step rb.capacity (queue_of rb) get) (ring_step rb get)
  unfolding ring_step queue_step
  get-Matches rb v =
      go (Ensures-some (Dequeued rb v (some buffer)) _ (pop-Dequeued rb v (some buffer) fits))
    where
      buffer : Bytes
      buffer = replicate rb.elem_size 0

      fits : rb.elem_size ≤ length buffer
      fits = omega (arith, length-replicate rb.elem_size (zero))

      go :
          (a : Bool × Option (RingBuffer S) × Option Bytes) × (pop (some rb) (some buffer) ≡ some a)
            × Dequeued rb v (some buffer) a
          → Matches rb (queue_step rb.capacity (queue_of rb) get) (ring_step rb get)
      go ((done, out, copied), e, inl (refused, nothing, same, kept)) =
          rw (nothing, e, refused, same) (rb, refl, v, refl, refl, nothing)
      go ((done, out, copied), e, inr (rb', x, taken, is, v', cap, size, q, x_size, copy)) =
          let read : overwrite 0 x buffer ≡ x =
            overwrite_all x buffer (x_size ∙ sym (length-replicate rb.elem_size 0)) in
          rw (q, e, taken, is, copy, read) (rb', refl, v', cap, size, refl)

  step-Matches :
      (rb : RingBuffer S) (op : Op)
      → IsValid rb
      → AllFit rb.elem_size (op ∷ [])
      → Matches rb (queue_step rb.capacity (queue_of rb) op) (ring_step rb op)
  unfolding queue_step
  step-Matches rb (put x) v fit = put-Matches rb x v fit.0
  step-Matches rb get v fit = get-Matches rb v

  -- A sequence of pushes and pops on a valid ring buffer never leaves the block and returns what the
  -- queue of at most `capacity` elements, started with those held, returns: first in, first out.
  pub run_refines :
      (ops : List Op) (rb : RingBuffer S)
      → IsValid rb
      → AllFit rb.elem_size ops
      → ring_run (some rb) ops ≡ some (queue_run rb.capacity (queue_of rb) ops)
  unfolding ring_run queue_run
  run_refines [] rb v fit = refl
  run_refines (op ∷ ops) rb v fit =
      let (rb', e, v', cap, size, q) = step-Matches rb op v (AllFit-head rb.elem_size op ops fit) in
      let fit' : AllFit rb'.elem_size ops =
        subst (λ n. AllFit n ops) (sym size) (AllFit-tail rb.elem_size op ops fit) in
      rw (e, run_refines ops rb' v' fit')
        (ap₂ (λ c l. some ((queue_step rb.capacity (queue_of rb) op).0 ∷ queue_run c l ops)) cap q)
