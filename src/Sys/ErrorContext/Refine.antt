-- ===== src/Sys/ErrorContext/Refine.antt =====
-- The context against a stack of at most 16 entries, each a status with a text of at most 255 chars.
use egl_utils_c.Base.{
  ℕ, zero, suc, ◌≤◌, ◌<◌, ◌≡◌, refl, ap, sym, ◌∙◌, arith, inl, inr, Option, none, some, List, [],
  ◌∷◌, false, Bytes, length, take, get_elem?, set, get_elem?-set_self, length-set, ltb, ltb→lt,
  Bool-cases, ◌==◌, if◌then◌else◌, ◌>>=◌, add_size, sub_size,
}
use egl_utils_c.Core.Status.{Status, ok}
use egl_utils_c.Sys.ErrorContext.{
  ErrorFrame, ErrorContext, fill_message, push, pop, clear, depth_of, max_depth,
}
use egl_utils_c.Sys.ErrorContext.Frames.{
  text_of, IsTerminated, frames_from, frames_of, AllSized, IsValid, frames_from-set, AllSized-get,
  AllSized-set, copy_message-text,
}

-- The calls of one thread. The message of a push is NULL or a NUL-terminated string.
pub data Op : Type 0 where
  raise : Status → Option Bytes → Op
  take_last : Op
  discard : Op
  count : Op

pub data Reply : Type 0 where
  returned : Status → Reply
  popped : Status → Bytes → Reply
  nothing_left : Reply
  discarded : Reply
  counted : ℕ → Reply

abbrev Entries : Type 0
Entries = List (Status × Bytes)

abbrev pub message_text : Option Bytes → Bytes
message_text none = []
message_text (some m) = take 255 (text_of m)

unfoldable pub entries_step : Entries → Op → Reply × Entries
unfolding text_of
entries_step es (raise s m) =
    (returned s, if ltb (length es) max_depth then (s, message_text m) ∷ es else es)
entries_step [] take_last = (nothing_left, [])
entries_step ((s, text) ∷ es) take_last = (popped s text, es)
entries_step es discard = (discarded, [])
entries_step es count = (counted (length es), es)

unfoldable pub entries_run : Entries → List Op → List Reply
unfolding entries_step
entries_run es [] = []
entries_run es (op ∷ ops) = let (r, es') = entries_step es op in r ∷ entries_run es' ops

-- What the caller of pop sees: the status, and the text that the message pointer leads to.
abbrev pub seen_of : Option Status → Option ErrorFrame → Reply
seen_of (some s) (some f) = popped s (text_of f.message)
seen_of s f = nothing_left

abbrev pub frame_at : Option ℕ → List ErrorFrame → Option ErrorFrame
frame_at none stack = none
frame_at (some k) stack = get_elem? stack k

unfoldable pub context_step : ErrorContext → Op → Option (Reply × ErrorContext)
unfolding push pop clear depth_of text_of
context_step ctx (raise s m) = do (status, ctx') ← push s m ctx; some (returned status, ctx')
context_step ctx take_last = do
  (found, status, message, ctx') ← pop (some ok) (some 0) ctx
  some (if found then seen_of status (frame_at message ctx'.stack) else nothing_left, ctx')
context_step ctx discard = some (discarded, clear ctx)
context_step ctx count = some (counted (depth_of ctx), ctx)

unfoldable pub context_run : ErrorContext → List Op → Option (List Reply)
unfolding context_step
context_run ctx [] = some []
context_run ctx (op ∷ ops) = do
  (r, ctx') ← context_step ctx op
  rs ← context_run ctx' ops
  some (r ∷ rs)

abbrev pub IsMessage : Option Bytes → Type 0
IsMessage none = Unit {0}
IsMessage (some m) = IsTerminated m

abbrev pub AllMessages : List Op → Type 0
AllMessages [] = Unit {0}
AllMessages (raise s m ∷ ops) = IsMessage m × AllMessages ops
AllMessages (op ∷ ops) = AllMessages ops

abbrev Matches : ErrorContext → Op → Type 0
Matches ctx op =
    (ctx' : ErrorContext) × (context_step ctx op ≡ some ((entries_step (frames_of ctx) op).0, ctx'))
    × IsValid ctx'
    × (frames_of ctx' ≡ (entries_step (frames_of ctx) op).1)

fill_message-text :
    (m : Option Bytes) (dst : Bytes)
    → IsMessage m
    → length dst ≡ 256
    → (out : Bytes) × (fill_message m dst ≡ some out)
      × (length out ≡ length dst)
      × (text_of out ≡ message_text m)
unfolding fill_message
fill_message-text none [] term e = absurd (omega arith)
fill_message-text none (d ∷ dst) term e =
    copy_message-text 0 (0 ∷ []) (d ∷ dst) (inl refl) (omega arith)
fill_message-text (some m) dst term e = copy_message-text 255 m dst term (omega arith)

length-frames_from :
    (k : ℕ) (stack : List ErrorFrame)
    → AllSized stack
    → k ≤ length stack
    → length (frames_from k stack) ≡ k
unfolding frames_from
length-frames_from zero stack all h = refl
length-frames_from (suc k) stack all h =
    let (f, at, _) = AllSized-get stack k all (omega arith) in
    rw at (ap suc (length-frames_from k stack all (omega arith)))

raise-Matches :
    (ctx : ErrorContext) (s : Status) (m : Option Bytes)
    → IsValid ctx
    → IsMessage m
    → Matches ctx (raise s m)
unfolding context_step entries_step push frames_from
raise-Matches ctx s m v term = elim (Bool-cases (ltb ctx.depth max_depth)) [
  | inl test ↦
      let lt : ctx.depth < max_depth = ltb→lt ctx.depth max_depth test in
      let (f, at, size) = AllSized-get ctx.stack ctx.depth v.sized (omega (arith, v.slots)) in
      let (out, filled, kept, text) = fill_message-text m f.message term size in
      let g : ErrorFrame = record { status = s; message = out } in
      let stored = get_elem?-set_self ctx.stack ctx.depth g (omega (arith, v.slots)) in
      let below = frames_from-set ctx.depth ctx.depth ctx.stack g (omega arith) in
      let step : add_size ctx.depth 1 ≡ suc ctx.depth = omega arith in
      rw (depth, test, at, filled, step)
        (
          record { stack = set ctx.stack ctx.depth g; depth = suc ctx.depth },
          refl,
          record {
            slots = length-set ctx.stack ctx.depth g ∙ v.slots;
            sized = AllSized-set ctx.stack ctx.depth g v.sized (kept ∙ size);
            bounded = omega arith;
          },
          rw (stored, below, text) refl,
        )
  | inr test ↦ rw (depth, test) (ctx, refl, v, refl)
]
  where
    depth : length (frames_from ctx.depth ctx.stack) ≡ ctx.depth
    depth = length-frames_from ctx.depth ctx.stack v.sized (omega (arith, v.slots, v.bounded))

take_last-Matches :
    (stack : List ErrorFrame) (depth : ℕ)
    → IsValid (record { stack = stack; depth = depth })
    → Matches (record { stack = stack; depth = depth }) take_last
unfolding context_step entries_step pop frames_from
take_last-Matches stack zero v = (record { stack = stack; depth = 0 }, refl, v, refl)
take_last-Matches stack (suc k) v =
    let (f, at, _) = AllSized-get stack k v.sized within in
    go f at (ground arith) (omega (arith, v.bounded))
  where
    within : k < length stack
    within = omega (arith, v.slots, v.bounded)

    go :
        (f : ErrorFrame)
        → get_elem? stack k ≡ some f
        → (suc k == 0) ≡ false
        → sub_size (suc k) 1 ≡ k
        → Matches (record { stack = stack; depth = suc k }) take_last
    go f at test step =
        rw (test, step, at)
          (
            record { stack = stack; depth = k },
            rw at refl,
            record { slots = v.slots; sized = v.sized; bounded = omega (arith, v.bounded) },
            refl,
          )

step-Matches : (ctx : ErrorContext) (op : Op) → IsValid ctx → AllMessages (op ∷ []) → Matches ctx op
unfolding context_step entries_step clear depth_of frames_from
step-Matches ctx (raise s m) v fit = raise-Matches ctx s m v fit.0
step-Matches ctx take_last v fit = take_last-Matches ctx.stack ctx.depth v
step-Matches ctx discard v fit = (
  record ctx { depth = 0 },
  refl,
  record { slots = v.slots; sized = v.sized; bounded = omega arith },
  refl,
)
step-Matches ctx count v fit =
    let depth : length (frames_of ctx) ≡ ctx.depth =
      length-frames_from ctx.depth ctx.stack v.sized (omega (arith, v.slots, v.bounded)) in
    (ctx, ap (λ n. some (counted n, ctx)) (sym depth), v, refl)

AllMessages-head : (op : Op) (ops : List Op) → AllMessages (op ∷ ops) → AllMessages (op ∷ [])
AllMessages-head (raise s m) ops fit = (fit.0, tt)
AllMessages-head take_last ops fit = tt
AllMessages-head discard ops fit = tt
AllMessages-head count ops fit = tt

AllMessages-tail : (op : Op) (ops : List Op) → AllMessages (op ∷ ops) → AllMessages ops
AllMessages-tail (raise s m) ops fit = fit.1
AllMessages-tail take_last ops fit = fit
AllMessages-tail discard ops fit = fit
AllMessages-tail count ops fit = fit

-- Any sequence of calls on a valid context, with messages that are NULL or NUL-terminated, stays
-- inside the arrays and returns what a stack of at most 16 entries would: a push beyond the
-- sixteenth keeps the earliest entries, a message is kept up to 255 chars, and pop gives the most
-- recent entry, whose text its message pointer leads to.
pub context_run-refines :
    (ops : List Op) (ctx : ErrorContext)
    → IsValid ctx
    → AllMessages ops
    → context_run ctx ops ≡ some (entries_run (frames_of ctx) ops)
unfolding context_run entries_run
context_run-refines [] ctx v fit = refl
context_run-refines (op ∷ ops) ctx v fit =
    let (ctx', e, v', q) = step-Matches ctx op v (AllMessages-head op ops fit) in
    rw (e, context_run-refines ops ctx' v' (AllMessages-tail op ops fit))
      (ap (λ l. some ((entries_step (frames_of ctx) op).0 ∷ entries_run l ops)) q)
