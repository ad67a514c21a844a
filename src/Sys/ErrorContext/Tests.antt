-- ===== src/Sys/ErrorContext/Tests.antt =====
-- Runs of error_context.c, and its theorem at a concrete context.
use egl_utils_c.Base.{◌≡◌, refl, none, some, List, [], ◌∷◌, inl, inr, replicate, arith}
use egl_utils_c.Core.Status.{ok, io, overflow}
use egl_utils_c.Sys.ErrorContext.{ErrorFrame, ErrorContext}
use egl_utils_c.Sys.ErrorContext.Frames.{IsValid, frames_of, AllSized-replicate}
use egl_utils_c.Sys.ErrorContext.Refine.{
  Op, raise, take_last, discard, count, context_run, entries_run, context_run-refines,
}

abbrev blank : ErrorFrame
blank = record { status = ok; message = replicate 256 0 }

-- The context of a new thread.
abbrev fresh : ErrorContext
fresh = record { stack = replicate 16 blank; depth = 0 }

fresh-IsValid : IsValid fresh
fresh-IsValid = record {
  slots = refl;
  sized = AllSized-replicate 16 blank refl;
  bounded = omega arith;
}

-- "no" with its NUL, a NULL message, two pops and one pop too many.
abbrev calls : List Op
calls =
    raise io (some (110 ∷ 111 ∷ 0 ∷ []))
    ∷ raise overflow none
    ∷ count
    ∷ take_last
    ∷ take_last
    ∷ take_last
    ∷ raise io none
    ∷ discard
    ∷ count
    ∷ []

context_run-refines_example : context_run fresh calls ≡ some (entries_run (frames_of fresh) calls)
context_run-refines_example =
    context_run-refines calls fresh fresh-IsValid (inr (inr (inl refl)), (tt, (tt, tt)))
