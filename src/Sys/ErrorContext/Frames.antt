-- ===== src/Sys/ErrorContext/Frames.antt =====
-- What a thread's error context holds: the frames, the most recent first, with their messages as text.
use egl_utils_c.Base.{
  ℕ, zero, suc, ◌≤◌, ◌<◌, ◌≡◌, refl, ap, arith, ◌⊎◌, inl, inr, Option, none, some, List, [], ◌∷◌,
  Bool, Bool-cases, Bytes, length, take, get_elem?, set, get_elem?-set_ne, ◌==◌, if◌then◌else◌, ◌≢◌,
  replicate,
}
use egl_utils_c.Core.Status.{Status}
use egl_utils_c.Sys.ErrorContext.{ErrorFrame, ErrorContext, copy_message, max_depth, message_cap}

-- The string that a NUL-terminated array holds.
unfoldable pub text_of : Bytes → Bytes
text_of [] = []
text_of (c ∷ cs) = let rest = text_of cs in if c == 0 then [] else c ∷ rest

abbrev pub IsTerminated : Bytes → Type 0
IsTerminated [] = ⊥
IsTerminated (c ∷ cs) = (c ≡ 0) ⊎ IsTerminated cs

-- The text of a frame's message; there is no frame outside the array.
abbrev pub with_entry : Option ErrorFrame → List (Status × Bytes) → List (Status × Bytes)
with_entry none rest = rest
with_entry (some f) rest = (f.status, text_of f.message) ∷ rest

unfoldable pub frames_from : ℕ → List ErrorFrame → List (Status × Bytes)
frames_from zero stack = []
frames_from (suc k) stack = with_entry (get_elem? stack k) (frames_from k stack)

abbrev pub frames_of : ErrorContext → List (Status × Bytes)
frames_of ctx = frames_from ctx.depth ctx.stack

abbrev pub AllSized : List ErrorFrame → Type 0
AllSized [] = Unit {0}
AllSized (f ∷ fs) = (length f.message ≡ message_cap) × AllSized fs

pub record IsValid (ctx : ErrorContext) : Type 0 where
  pub slots : length ctx.stack ≡ max_depth
  pub sized : AllSized ctx.stack
  pub bounded : ctx.depth ≤ max_depth

pub frames_from-set :
    (k j : ℕ) (stack : List ErrorFrame) (f : ErrorFrame)
    → k ≤ j
    → frames_from k (set stack j f) ≡ frames_from k stack
unfolding frames_from
frames_from-set zero j stack f h = refl
frames_from-set (suc k) j stack f h =
    let ne : j ≢ k = λ e. omega arith in
    rw (get_elem?-set_ne stack j k f ne, frames_from-set k j stack f (omega arith)) refl

pub AllSized-get :
    (stack : List ErrorFrame) (i : ℕ)
    → AllSized stack
    → i < length stack
    → (f : ErrorFrame) × (get_elem? stack i ≡ some f) × (length f.message ≡ message_cap)
AllSized-get [] i all h = absurd (omega arith)
AllSized-get (f ∷ fs) zero all h = (f, refl, all.0)
AllSized-get (f ∷ fs) (suc i) all h = AllSized-get fs i all.1 (omega arith)

pub AllSized-set :
    (stack : List ErrorFrame) (i : ℕ) (f : ErrorFrame)
    → AllSized stack
    → length f.message ≡ message_cap
    → AllSized (set stack i f)
AllSized-set [] i f all e = tt
AllSized-set (g ∷ gs) zero f all e = (e, all.1)
AllSized-set (g ∷ gs) (suc i) f all e = (all.0, AllSized-set gs i f all.1 e)

-- The copy of a string keeps as much of it as there is room for.
pub copy_message-text :
    (room : ℕ) (src dst : Bytes)
    → IsTerminated src
    → room < length dst
    → (out : Bytes) × (copy_message room src dst ≡ some out)
      × (length out ≡ length dst)
      × (text_of out ≡ take room (text_of src))
unfolding copy_message text_of
copy_message-text zero src [] term h = absurd (omega arith)
copy_message-text zero src (d ∷ dst) term h = (0 ∷ dst, refl, refl, refl)
copy_message-text (suc room) [] dst term h = absurd term
copy_message-text (suc room) (c ∷ src) [] term h = absurd (omega arith)
copy_message-text (suc room) (c ∷ src) (d ∷ dst) term h = elim (Bool-cases (c == 0)) [
  | inl e ↦ rw e (0 ∷ dst, refl, refl, refl)
  | inr e ↦
      let (out, copied, size, text) =
        copy_message-text room src dst (later c src term e) (omega arith) in
      rw (e, copied) (c ∷ out, refl, ap suc size, rw (e, text) refl)
]
  where
    later :
        (c : ℕ) (src : Bytes) → IsTerminated (c ∷ src) → (c == 0) ≡ Bool.false → IsTerminated src
    later c src (inl z) e = absurd (ground arith)
    later c src (inr t) e = t

pub AllSized-replicate :
    (n : ℕ) (f : ErrorFrame) → length f.message ≡ message_cap → AllSized (replicate n f)
AllSized-replicate zero f e = tt
AllSized-replicate (suc n) f e = (e, AllSized-replicate n f e)
