-- ===== src/Ds/Vector/Contents.antt =====
-- The representation invariant of `d4np_vector_t`, and the list of elements that it stands for.
use egl_utils_c.Base.{
  bytes_of, ℕ, ◌*◌, ◌≤◌, ◌<◌, ◌≡◌, Option, none, some, List, Bytes, length, tabulate, slot,
  size_mod,
}
use egl_utils_c.Core.Allocator.{Libc, IsAllocator, or_default}
use egl_utils_c.Ds.Vector.{Vector}

-- The storage is a block of `n` bytes, or NULL where `n` is 0.
abbrev pub Holds : Option Bytes → ℕ → Type 0
Holds none n = n ≡ 0
Holds (some b) n = length b ≡ n

pub record IsValid {S : Type 0} (libc : Libc S) (v : Vector S) : Type 0 where
  pub lawful : IsAllocator libc.address (or_default libc v.allocator)
  pub elem_pos : 0 < v.elem_size
  pub len_le : v.len ≤ v.capacity
  pub fits : v.capacity * v.elem_size < size_mod
  pub holds : Holds v.block (v.capacity * v.elem_size)

-- The elements, first to last, each the list of its bytes.
abbrev pub contents : {S : Type 0} → Vector S → List Bytes
contents v = tabulate v.len (slot v.elem_size (bytes_of v.block))
