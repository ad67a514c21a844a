-- ===== src/Ds/StringBuilder/Lifetime.antt =====
-- The other functions of string_builder.c: set-up, growth on request, reading, clearing, tearing
-- down.
use egl_utils_c.Base.{
  ℕ, zero, suc, ◌+◌, ◌≤◌, ◌<◌, ◌≡◌, refl, sym, subst, ap, ◌∙◌, arith, Option, Option-cases,
  write_at, none, some, [], ◌∷◌, ◌++◌, Bytes, length, take, drop, size_mod, Bool-cases, inl, inr,
  ◌⊎◌, ltb, ◌==◌, bytes_of, ◌>>=◌,
}
use egl_utils_c.Core.Status.{Status, ok, out_of_memory}
use egl_utils_c.Core.Allocator.{Allocator, Libc, IsAllocator, or_default, free}
use egl_utils_c.Str.View.{from_buf}
use egl_utils_c.Str.View.SplitNext.{text}
use egl_utils_c.Ds.StringBuilder.{
  or_empty, view_of, Builder, ensure, put, put_nul, on_room, start_text, init, reserve, destroy,
  destroy_block, clear, cstr, view, len,
}
use egl_utils_c.Ds.StringBuilder.Ensure.{IsOpen, Ensured, ensure-Ensured}
use egl_utils_c.Ds.StringBuilder.Append.{
  contents, Terminated, IsValid, Appended, Appends, on_room-Appended, put_nul-IsValid,
  nul-lt-capacity, Roomy-contents, append_nil,
}

put-capacity :
    {S : Type 0} (sb : Builder S) (i c : ℕ) (sb' : Builder S)
    → put sb i c ≡ some sb'
    → sb'.capacity ≡ sb.capacity
unfolding put
put-capacity sb i c sb' e = elim (Option-cases (write_at sb.data_ptr i (c ∷ []))) [
  | inl bad ↦ absurd (cc)
  | inr (b, w) ↦
      let written = rw w at e in
      let same : record sb { data_ptr = some b } ≡ sb' = cc in ap (λ t. t.capacity) (sym same)
]

bytes_of-cons :
    (o : Option Bytes) (off : ℕ) (w : Bytes)
    → take 1 (drop off (bytes_of o)) ≡ 0 ∷ w
    → (b : Bytes) × (o ≡ some b)
bytes_of-cons none zero w e = absurd (cc)
bytes_of-cons none (suc off) w e = absurd (cc)
bytes_of-cons (some b) off w e = (b, refl)

take_suc : (n : ℕ) (b : Bytes) → take (n + 1) b ≡ take n b ++ take 1 (drop n b)
take_suc zero b = refl
take_suc (suc n) [] = let e : suc n + 1 ≡ suc (n + 1) = omega arith in ap (λ k. take k []) e
take_suc (suc n) (c ∷ b) =
    let e : suc n + 1 ≡ suc (n + 1) = omega arith in
    ap (λ k. take k (c ∷ b)) e ∙ ap (λ l. c ∷ l) (take_suc n b)

shown :
    (o : Option Bytes) (n : ℕ)
    → ((o ≡ none) × (n ≡ 0)) ⊎ (take 1 (drop n (bytes_of o)) ≡ 0 ∷ [])
    → (take (n + 1) (or_empty o) ≡ take n (bytes_of o) ++ (0 ∷ []))
      × (text (view_of o n) ≡ take n (bytes_of o))
unfolding from_buf
shown none zero e = (refl, refl)
shown none (suc n) (inl (null, z)) = absurd (omega arith)
shown none (suc n) (inr e) = absurd (cc)
shown (some b) n (inl (null, z)) = absurd (cc)
shown (some b) n (inr e) = (take_suc n b ∙ ap (λ l. take n b ++ l) e, refl)

module _ {S : Type 0} (libc : Libc S) where
  -- A NUL at the start of an empty builder.
  put_first-IsValid :
      (sb : Builder S)
      → IsOpen libc sb
      → sb.len ≡ 0
      → 0 < sb.capacity
      → (sb' : Builder S) × (put sb 0 0 ≡ some sb')
        × IsValid libc sb'
        × (contents sb' ≡ contents sb)
  put_first-IsValid sb v empty pos =
      subst
        (λ i.
          (sb' : Builder S) × (put sb i 0 ≡ some sb')
          × IsValid libc sb'
          × (contents sb' ≡ contents sb))
        empty (put_nul-IsValid libc sb v (omega arith))

  -- d4np_sb_init with a lawful allocator makes a valid empty builder, with a block of at least the
  -- capacity asked for, or without a block where memory ran out.
  pub init-IsEmpty :
      (storage : Builder S) (allocator : Option (Allocator S)) (initial : ℕ) (s : S)
      → IsAllocator libc.address (or_default libc allocator)
      → initial < size_mod
      → (st : Status) × (sb : Builder S) × (s' : S) × (init libc (some storage) allocator initial s
          ≡ some (st, some sb, s'))
        × IsOpen libc sb
        × (contents sb ≡ [])
        × (((st ≡ ok) × (initial ≤ sb.capacity) × IsValid libc sb)
            ⊎ ((st ≡ out_of_memory) × (sb.data_ptr ≡ none)))
  unfolding init on_room
  init-IsEmpty storage allocator initial s lawful small = elim (Bool-cases (ltb 0 initial)) [
    | inr lazy ↦ rw lazy (
      ok,
      fresh,
      s,
      refl,
      fresh-IsOpen,
      refl,
      inl (refl, ground arith, record { shape = fresh-IsOpen; ended = inl (refl, refl) }),
    )
    | inl some_room ↦
        rw some_room (go (ground arith) (ensure-Ensured libc fresh initial s fresh-IsOpen small))
  ]
    where
      fresh : Builder S
      fresh = record {
        allocator = some (or_default libc allocator);
        data_ptr = none;
        len = 0;
        capacity = 0;
      }

      fresh-IsOpen : IsOpen libc fresh
      fresh-IsOpen = record {
        lawful = lawful;
        block = refl;
        len_le = omega arith;
        capacity_lt = omega arith;
      }

      go :
          0 < initial
          → Ensured libc fresh initial (ensure libc fresh initial s)
          → (st : Status) × (sb : Builder S) × (s' : S) × ((do
            r ← ensure libc fresh initial s
            on_room (λ b. put b 0 0) r)
              ≡ some (st, some sb, s'))
            × IsOpen libc sb
            × (contents sb ≡ [])
            × (((st ≡ ok) × (initial ≤ sb.capacity) × IsValid libc sb)
                ⊎ ((st ≡ out_of_memory) × (sb.data_ptr ≡ none)))
      go pos (st, sb1, s1, e, inl (fine, r)) =
          let (sb2, done, valid, same) =
            put_first-IsValid sb1 r.shape r.same_len (omega (arith, r.room)) in
          rw (e, fine, done)
            (
              ok,
              sb2,
              s1,
              refl,
              valid.shape,
              same ∙ ap (λ n. take n (bytes_of sb1.data_ptr)) r.same_len,
              inl (refl, omega (arith, r.room, put-capacity sb1 0 0 sb2 done), valid),
            )
      go pos (st, sb1, s1, e, inr (failed, kept)) =
          rw (e, failed)
            (
              out_of_memory,
              sb1,
              s1,
              refl,
              subst (IsOpen libc) (sym kept) fresh-IsOpen,
              ap contents kept,
              inr (refl, ap (λ (b : Builder S). b.data_ptr) kept),
            )

  start_text-Appends :
      (sb : Builder S) (min : ℕ) → IsValid libc sb → Appends libc start_text sb min []
  unfolding start_text put_nul
  start_text-Appends sb min v sb1 r = elim (Bool-cases (sb1.len == 0)) [
    | inr some_text ↦
        rw some_text (sb1, refl, record { shape = r.shape; ended = kept_nul (ground arith) }, same)
    | inl no_text ↦ rw no_text (empty (ground arith) sb1.data_ptr refl)
  ]
    where
      same : contents sb1 ≡ contents sb ++ []
      same = Roomy-contents libc sb sb1 min v r ∙ sym (append_nil (contents sb))

      kept_nul : 0 < sb1.len → Terminated sb1
      kept_nul pos = elim v.ended [
        | inl (null, z) ↦ absurd (omega (arith, r.same_len))
        | inr nul ↦ inr (
            ap (λ n. take 1 (drop n (bytes_of sb1.data_ptr))) r.same_len
            ∙ r.keeps 1 sb.len (omega (arith, nul-lt-capacity libc sb v.shape nul))
            ∙ nul)
      ]

      has_block : (b : Bytes) → sb1.data_ptr ≡ some b → 0 < sb1.capacity
      has_block b e = elim r.grown [
        | inr more ↦ omega arith
        | inl unchanged ↦ elim v.ended [
          | inl (null, z) ↦
              let lost : sb1.data_ptr ≡ none =
                ap (λ (t : Builder S). t.data_ptr) unchanged ∙ null in
              absurd (cc)
          | inr nul ↦
              let cap : sb1.capacity ≡ sb.capacity = ap (λ (t : Builder S). t.capacity) unchanged in
              omega (arith, nul-lt-capacity libc sb v.shape nul, cap)
        ]
      ]

      empty :
          sb1.len ≡ 0
          → (o : Option Bytes) → sb1.data_ptr ≡ o
          → (sb2 : Builder S) × (put_nul sb1 o ≡ some sb2)
            × IsValid libc sb2
            × (contents sb2 ≡ contents sb ++ [])
      empty z none e = (sb1, refl, record { shape = r.shape; ended = inl (e, z) }, same)
      empty z (some b) e =
          let (sb2, done, valid, kept) = put_first-IsValid sb1 r.shape z (has_block b e) in
          (sb2, done, valid, kept ∙ same)

  -- d4np_sb_reserve keeps a valid builder valid and its contents, also where memory runs out.
  pub reserve-Appended :
      (sb : Builder S) (min : ℕ) (s : S)
      → IsValid libc sb
      → min < size_mod
      → Appended libc sb [] (reserve libc (some sb) min s)
  unfolding reserve
  reserve-Appended sb min s v small =
      on_room-Appended libc start_text sb min [] _ v (ensure-Ensured libc sb min s v.shape small)
        (start_text-Appends sb min v)

  -- d4np_sb_clear keeps a valid builder valid and leaves it without contents.
  pub clear-IsValid :
      (sb : Builder S)
      → IsValid libc sb
      → (sb' : Builder S) × (clear (some sb) ≡ some (some sb'))
        × IsValid libc sb'
        × (contents sb' ≡ [])
  unfolding clear put_nul
  clear-IsValid sb v = elim v.ended [
    | inl (null, z) ↦ (
      blank,
      ap (λ o. do sb' ← put_nul blank o; some (some sb')) null,
      record { shape = blank-IsOpen; ended = inl (null, refl) },
      refl,
    )
    | inr nul ↦
        let (b, e) = bytes_of-cons sb.data_ptr sb.len [] nul in
        let (sb', done, valid, same) =
          put_first-IsValid blank blank-IsOpen refl
            (omega (arith, nul-lt-capacity libc sb v.shape nul)) in
        (
          sb',
          ap (λ o. do t ← put_nul blank o; some (some t)) e
              ∙ ap (λ r. do t ← r; some (some t)) done,
          valid,
          same,
        )
  ]
    where
      blank : Builder S
      blank = record sb { len = 0 }

      blank-IsOpen : IsOpen libc blank
      blank-IsOpen = record {
        lawful = v.shape.lawful;
        block = v.shape.block;
        len_le = omega arith;
        capacity_lt = v.shape.capacity_lt;
      }

  -- d4np_sb_destroy hands the block back once, with its capacity, and leaves an empty builder.
  pub builder_destroy_frees :
      (sb : Builder S) (b : Bytes) (s : S)
      → IsValid libc sb
      → sb.data_ptr ≡ some b
      → let (out, s') = destroy libc (some sb) s in
        (s' ≡ free libc sb.allocator (some b) (length b) s)
        × (destroy libc out s' ≡ (out, s'))
        × (len out ≡ 0)
  unfolding destroy destroy_block len
  builder_destroy_frees sb b s v e = rw done (refl, refl, refl)
    where
      size : sb.capacity ≡ length b
      size = sym v.shape.block ∙ ap (λ o. length (bytes_of o)) e

      done : destroy_block libc sb sb.data_ptr s ≡ (
        record sb { data_ptr = none; len = 0; capacity = 0 },
        free libc sb.allocator (some b) (length b) s,
      )
      done =
          ap (λ o. destroy_block libc sb o s) e
          ∙ ap
              (λ n. (
                record sb { data_ptr = none; len = 0; capacity = 0 },
                free libc sb.allocator (some b) n s,
              ))
              size

  -- d4np_sb_cstr of a valid builder is a string that starts with its contents and a NUL, and
  -- d4np_sb_view shows the contents.
  pub cstr-contents :
      (sb : Builder S)
      → IsValid libc sb
      → (take (sb.len + 1) (cstr (some sb)) ≡ contents sb ++ (0 ∷ []))
        × (text (view (some sb)) ≡ contents sb)
  unfolding cstr view
  cstr-contents sb v = shown sb.data_ptr sb.len v.ended
