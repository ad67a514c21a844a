-- ===== src/Sys/ErrorContext.antt =====
-- d4np/sys/error_context.h and error_context.c: the frames of one thread. A read or write outside an
-- array gives `none`.
pub mod Frames
pub mod Refine
mod Tests
use egl_utils_c.Base.{
  ℕ, zero, suc, Bool, true, false, Option, none, some, [], ◌∷◌, List, Bytes, get_elem?, set, ltb,
  ◌==◌, if◌then◌else◌, add_size, sub_size, ◌>>=◌,
}
use egl_utils_c.Core.Status.{Status}

-- error_frame: `message` is an array of 256 chars.
pub record ErrorFrame : Type 0 where
  pub status : Status
  pub message : Bytes

-- D4NP_ERROR_CONTEXT_MAX_DEPTH
abbrev pub max_depth : ℕ
max_depth = 16

-- D4NP_ERROR_MESSAGE_CAP
abbrev pub message_cap : ℕ
message_cap = 256

-- g_stack and g_depth
pub record ErrorContext : Type 0 where
  pub stack : List ErrorFrame
  pub depth : ℕ

-- The loop of push and the store of the NUL after it, from the index i on: `room` is how many more
-- chars are copied at most, `src` and `dst` are what is left of message and of f->message.
unfoldable pub copy_message : ℕ → Bytes → Bytes → Option Bytes
copy_message zero src [] = none
copy_message zero src (d ∷ dst) = some (0 ∷ dst)
copy_message (suc room) [] dst = none
copy_message (suc room) (c ∷ src) [] = none
copy_message (suc room) (c ∷ src) (d ∷ dst) =
    let rest = copy_message room src dst in
    if c == 0 then some (0 ∷ dst) else (do copied ← rest; some (c ∷ copied))

unfoldable pub fill_message : Option Bytes → Bytes → Option Bytes
unfolding copy_message
fill_message none dst = copy_message 0 [] dst
fill_message (some message) dst = copy_message 255 message dst

unfoldable pub push : Status → Option Bytes → ErrorContext → Option (Status × ErrorContext)
unfolding fill_message
push status message ctx =
    if ltb ctx.depth max_depth
    then (do
      f ← get_elem? ctx.stack ctx.depth
      written ← fill_message message f.message
      some (
        status,
        record {
          stack = set ctx.stack ctx.depth (record { status = status; message = written });
          depth = add_size ctx.depth 1;
        },
      ))
    else some (status, ctx)

-- What a caller's out-pointer receives, unless it is NULL.
abbrev pub store_out {ℓ} : {A : Type ℓ} → Option A → A → Option A
store_out none x = none
store_out (some old) x = some x

-- A pointer to a message is the number of its frame.
unfoldable pub pop :
    Option Status
    → Option ℕ
    → ErrorContext
    → Option (Bool × Option Status × Option ℕ × ErrorContext)
pop out_status out_message ctx =
    if ctx.depth == 0 then some (false, out_status, out_message, ctx) else (do
      let depth = sub_size ctx.depth 1
      f ← get_elem? ctx.stack depth
      some (
        true,
        store_out out_status f.status,
        store_out out_message depth,
        record ctx { depth = depth },
      ))

unfoldable pub clear : ErrorContext → ErrorContext
clear ctx = record ctx { depth = 0 }

unfoldable pub depth_of : ErrorContext → ℕ
depth_of ctx = ctx.depth
