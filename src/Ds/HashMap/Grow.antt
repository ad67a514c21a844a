-- ===== src/Ds/HashMap/Grow.antt =====
-- `resize` of hashmap.c on a valid map, and the growth step of d4np_hashmap_put.
use egl_utils_c.Base.{
  ℕ, zero, suc, ◌+◌, ◌*◌, ◌/◌, ◌≤◌, ◌<◌, ◌≡◌, ◌≢◌, refl, sym, ap, ap₂, subst, ◌∙◌, arith, true,
  false, Option, some, Bytes, length, get_or, replicate, length-replicate, ◌==◌, ltb, Bool-cases,
  inl, inr, ◌⊎◌, size_mod, size_max, mul_size_exact, mul-lt_of_le_div, write_at, overwrite_all,
  le→leb,
}
use egl_utils_c.Core.Status.{Status, ok}
use egl_utils_c.Core.Allocator.{Libc, IsAllocator, or_default, alloc, max_align}
use egl_utils_c.Ds.HashMap.State.{HashMap, slot_empty}
use egl_utils_c.Ds.HashMap.Resize.{exceeds, move_in, with_blocks, resize}
use egl_utils_c.Ds.HashMap.Count.{count, count-zero}
use egl_utils_c.Ds.HashMap.Table.{table, IsKeyEq, IsTable, lookup}
use egl_utils_c.Ds.HashMap.Lookup.{Answers, lookup-Answers, Answers-lookup}
use egl_utils_c.Ds.HashMap.Locate.{IsMasked}
use egl_utils_c.Ds.HashMap.Valid.{IsValid, find}
use egl_utils_c.Ds.HashMap.Move.{Frame, Moved, reinsert-Moved}

abbrev pub zeros : ℕ → Bytes
zeros n = replicate n slot_empty

pub get_or-replicate : (n j : ℕ) → get_or (zeros n) j 0 ≡ 0
get_or-replicate zero j = refl
get_or-replicate (suc n) zero = refl
get_or-replicate (suc n) (suc j) = get_or-replicate n j

pub write_at-replicate :
    (n : ℕ) (b : Bytes) → length b ≡ n → write_at (some b) 0 (zeros n) ≡ some (zeros n)
unfolding write_at
write_at-replicate n b e =
    rw (le→leb (0 + length (zeros n)) (length b) (omega (arith, length-replicate n slot_empty)))
      (ap some (overwrite_all (zeros n) b (length-replicate n slot_empty ∙ sym e)))

-- The map of `resize` before the old entries are put in.
abbrev emptied : {S : Type 0} → HashMap S → ℕ → Bytes → Bytes → HashMap S
emptied m n nk nv = record m {
  control = some (zeros n);
  keys = some nk;
  values = some nv;
  capacity = n;
  tombstones = 0;
}

-- The map after a resize to `n` slots: it is valid, has every key's value and nothing deleted.
pub record Regrown {S : Type 0} (libc : Libc S) (m : HashMap S) (n : ℕ) (m' : HashMap S)
    : Type 0 where
  pub valid : IsValid libc m'
  pub frame : Frame m m'
  pub same_size : m'.capacity ≡ n
  pub no_tombs : m'.tombstones ≡ 0
  pub finds : (q : Bytes) → find m' q ≡ find m q

-- What a resize gives: the map as it was with an error, or one with `n` slots.
abbrev pub Resized : {S : Type 0} → Libc S → HashMap S → ℕ → Status × HashMap S × S → Type 0
Resized libc m n r = ((r.0 ≢ ok) × (r.1 ≡ m)) ⊎ ((r.0 ≡ ok) × Regrown libc m n r.1)

module _ {S : Type 0} (libc : Libc S) (m : HashMap S) (v : IsValid libc m) (n : ℕ)
    (masked : IsMasked n) (more : m.capacity < n) (enough : m.len < n) where
  module _ (key_fits : n * m.key_stride < size_mod) (value_fits : n * m.value_stride < size_mod)
      (nk nv : Bytes) (nk_len : length nk ≡ n * m.key_stride)
      (nv_len : length nv ≡ n * m.value_stride) where
    emptied-Moved : Moved m n 0 0 (emptied m n nk nv)
    unfolding count
    emptied-Moved = record {
      frame = record {
        same_allocator = refl;
        same_key_size = refl;
        same_value_size = refl;
        same_key_stride = refl;
        same_value_stride = refl;
        same_hash = refl;
        same_key_eq = refl;
        same_len = refl;
      };
      same_size = refl;
      same_tombs = refl;
      sized = record {
        control_len = length-replicate n slot_empty;
        keys_len = nk_len;
        values_len = nv_len;
        key_fits = v.sized.key_fits;
        value_fits = v.sized.value_fits;
        key_pos = v.sized.key_pos;
        value_pos = v.sized.value_pos;
        keys_lt = key_fits;
        values_lt = value_fits;
      };
      entries = record {
        states = λ j lt. inl (get_or-replicate n j);
        chain = λ j lt one. absurd (omega (arith, get_or-replicate n j, one));
        unique = λ i j lt lt' one one' eq. absurd (omega (arith, get_or-replicate n i, one));
      };
      ones =
          count-zero 1 (λ j. get_or (zeros n) j 0) n
            (λ j lt one. absurd (omega (arith, get_or-replicate n j, one)));
      twos =
          count-zero 2 (λ j. get_or (zeros n) j 0) n
            (λ j lt two. absurd (omega (arith, get_or-replicate n j, two)));
      from = λ j lt one. absurd (omega (arith, get_or-replicate n j, one));
      has = λ x lt one. absurd (omega arith);
    }

  -- A map that has all the old entries and no others answers as the old one.
  Moved-Answers :
      (m' : HashMap S) (q : Bytes)
      → Moved m n 0 m.capacity m'
      → Answers m.key_eq (table m') q (find m q)
  Moved-Answers m' q moved = elim (lookup-Answers m.key_eq (table m) q) [
    | inl (nothing, lacks) ↦ inl (
      nothing,
      λ j lt one.
          let (x, x_lt, x_one, same_key, _) = moved.from j lt one in
          subst (λ k. m.key_eq k q ≡ false) (sym same_key) (lacks x x_lt x_one),
    )
    | inr (x, (x_lt, x_one, eq), found) ↦
        let (j, lt, one, same_key, same_value) = moved.has x x_lt x_one in
        inr (
          j,
          (lt, one, subst (λ k. m.key_eq k q ≡ true) (sym same_key) eq),
          found ∙ ap some (sym same_value),
        )
  ]

  Moved-Regrown : (m' : HashMap S) → Moved m n 0 m.capacity m' → Regrown libc m n m'
  Moved-Regrown m' moved =
      let f = moved.frame in
      record {
        valid = record {
          lawful =
              subst (λ a. IsAllocator libc.address (or_default libc a)) (sym f.same_allocator)
                v.lawful;
          ops =
              subst (λ h. IsKeyEq h m'.key_eq) (sym f.same_hash)
                (subst (λ e. IsKeyEq m.hash e) (sym f.same_key_eq) v.ops);
          sized = moved.sized;
          entries =
              subst (λ h. IsTable h m'.key_eq (table m')) (sym f.same_hash)
                (subst (λ e. IsTable m.hash e (table m')) (sym f.same_key_eq) moved.entries);
          len_count = f.same_len ∙ v.len_count ∙ sym moved.ones;
          tomb_count = moved.same_tombs ∙ sym moved.twos;
          room = inr (
            subst IsMasked (sym moved.same_size) masked,
            omega (arith, f.same_len, moved.same_tombs, moved.same_size, enough),
          );
        };
        frame = f;
        same_size = moved.same_size;
        no_tombs = moved.same_tombs;
        finds = λ q.
            ap (λ e. lookup e (table m') q) f.same_key_eq
            ∙ Answers-lookup m.hash m.key_eq (table m') q _ v.ops moved.entries
                (Moved-Answers m' q moved);
      }

  move_in-Resized :
      (nc nk nv : Bytes) (s : S)
      → n * m.key_stride < size_mod
      → n * m.value_stride < size_mod
      → length nc ≡ n
      → length nk ≡ n * m.key_stride
      → length nv ≡ n * m.value_stride
      → (r : Status × HashMap S × S) × (move_in libc m n nc nk nv s ≡ some r) × Resized libc m n r
  unfolding move_in
  move_in-Resized nc nk nv s kf vf nc_len nk_len nv_len =
      let (m', done, moved) =
        reinsert-Moved m v.sized v.ops v.entries n 0 masked more m.capacity 0 (emptied m n nk nv)
          (omega arith) (emptied-Moved kf vf nk nv nk_len nv_len) in
      rw (write_at-replicate n nc nc_len, done) (_, refl, inr (refl, Moved-Regrown m' moved))

  -- The sizes of the blocks that the allocator gave.
  abbrev BlockOf : Option Bytes → ℕ → Type 0
  BlockOf o size = (b : Bytes) → o ≡ some b → length b ≡ size

  alloc-BlockOf : (size : ℕ) (s : S) → BlockOf (alloc libc m.allocator size max_align s).0 size
  unfolding alloc
  alloc-BlockOf size s b e =
      v.lawful.alloc_size size max_align s _ b (ap₂ (λ (o : Option Bytes) (t : S). (o, t)) e refl)

  with_blocks-Resized :
      (nc nk nv : Option Bytes) (s : S)
      → n * m.key_stride < size_mod
      → n * m.value_stride < size_mod
      → BlockOf nc n
      → BlockOf nk (n * m.key_stride)
      → BlockOf nv (n * m.value_stride)
      → (r : Status × HashMap S × S) × (with_blocks libc m n nc nk nv s ≡ some r)
        × Resized libc m n r
  unfolding with_blocks
  with_blocks-Resized (some nc) (some nk) (some nv) s kf vf c k x =
      move_in-Resized nc nk nv s kf vf (c nc refl) (k nk refl) (x nv refl)
  with_blocks-Resized nc nk nv s kf vf c k x = (_, refl, inl ((cc), refl))

  exceeds-ltb : (stride : ℕ) → 16 ≤ stride → exceeds n stride ≡ some (ltb (size_max / stride) n)
  unfolding exceeds
  exceeds-ltb stride pos = let test : (stride == 0) ≡ false = ground arith in rw test refl

  -- `resize` to a larger power of two slots succeeds, or fails and leaves the map as it was.
  pub resize-Resized :
      (s : S) → (r : Status × HashMap S × S) × (resize libc m n s ≡ some r) × Resized libc m n r
  unfolding resize
  resize-Resized s =
      rw (exceeds-ltb m.key_stride v.sized.key_pos, exceeds-ltb m.value_stride v.sized.value_pos)
        (elim (Bool-cases (ltb (size_max / m.key_stride) n)) [
          | inl big ↦ rw big (_, refl, inl ((cc), refl))
          | inr key_fine ↦ rw key_fine (elim (Bool-cases (ltb (size_max / m.value_stride) n)) [
            | inl big ↦ rw big (_, refl, inl ((cc), refl))
            | inr value_fine ↦
                let kf : n * m.key_stride < size_mod =
                  mul-lt_of_le_div n m.key_stride (omega (arith, v.sized.key_pos)) (ground arith) in
                let vf : n * m.value_stride < size_mod =
                  mul-lt_of_le_div n m.value_stride (omega (arith, v.sized.value_pos))
                    (ground arith) in
                rw (value_fine, mul_size_exact _ _ kf, mul_size_exact _ _ vf)
                  (with_blocks-Resized _ _ _ _ kf vf (alloc-BlockOf _ _) (alloc-BlockOf _ _)
                    (alloc-BlockOf _ _))
          ])
        ])
