-- ===== src/Ds/StringBuilder/Append.antt =====
-- The three append functions of string_builder.c.
use egl_utils_c.Base.{
  ℕ, zero, suc, ◌+◌, ◌≤◌, ◌<◌, ◌≡◌, refl, sym, subst, ap, ◌∙◌, arith, Option, none, some, [], ◌∷◌,
  ◌++◌, Bytes, length, take, drop, length-take, length-drop, size_mod, size_max, add_size,
  add_size_exact, sub_size, Bool-cases, inl, inr, ◌⊎◌, ltb, le→leb, ◌==◌, bytes_of, ◌>>=◌,
  overwrite, write_at, length-overwrite, take-overwrite, take-drop-overwrite,
}
use egl_utils_c.Core.Status.{Status, ok, out_of_memory, overflow}
use egl_utils_c.Core.Allocator.{Libc}
use egl_utils_c.Str.View.{View}
use egl_utils_c.Str.View.SplitNext.{text, IsReadable}
use egl_utils_c.Str.View.Equals.{read_at-text, length-text}
use egl_utils_c.Ds.StringBuilder.{
  Builder, put, on_room, end_text, copy_view, put_char, append_view, append_char,
}
use egl_utils_c.Ds.StringBuilder.Ensure.{IsOpen, Roomy, Ensured, ensure-Ensured}

abbrev pub contents : {S : Type 0} → Builder S → Bytes
contents sb = take sb.len (bytes_of sb.data_ptr)

-- A builder without a block, or whose contents a NUL follows.
abbrev pub Terminated : {S : Type 0} → Builder S → Type 0
Terminated sb =
    ((sb.data_ptr ≡ none) × (sb.len ≡ 0)) ⊎ (take 1 (drop sb.len (bytes_of sb.data_ptr)) ≡ 0 ∷ [])

pub record IsValid {S : Type 0} (libc : Libc S) (sb : Builder S) : Type 0 where
  pub shape : IsOpen libc sb
  pub ended : Terminated sb

pub write_at-bytes_of :
    (o : Option Bytes) (off : ℕ) (c : ℕ) (x : Bytes)
    → off + suc (length x) ≤ length (bytes_of o)
    → write_at o off (c ∷ x) ≡ some (overwrite off (c ∷ x) (bytes_of o))
unfolding write_at
write_at-bytes_of none off c x h = absurd (omega arith)
write_at-bytes_of (some b) off c x h = rw (le→leb (off + suc (length x)) (length b) h) refl

take_through-overwrite :
    (off : ℕ) (x b : Bytes)
    → off + length x ≤ length b
    → take (off + length x) (overwrite off x b) ≡ take off b ++ x
unfolding overwrite
take_through-overwrite zero [] b h =
    let z : 0 + 0 ≡ 0 = omega arith in ap (λ n. take n (overwrite 0 [] b)) z
take_through-overwrite zero (c ∷ x) [] h = absurd (omega arith)
take_through-overwrite zero (c ∷ x) (d ∷ b) h =
    let n : 0 + suc (length x) ≡ suc (0 + length x) = omega arith in
    ap (λ n. take n (c ∷ overwrite 0 x b)) n
    ∙ ap (λ l. c ∷ l) (take_through-overwrite zero x b (omega arith))
take_through-overwrite (suc off) x [] h = absurd (omega arith)
take_through-overwrite (suc off) x (d ∷ b) h =
    let n : suc off + length x ≡ suc (off + length x) = omega arith in
    ap (λ n. take n (d ∷ overwrite off x b)) n
    ∙ ap (λ l. d ∷ l) (take_through-overwrite off x b (omega arith))

pub append_nil : (x : Bytes) → x ++ [] ≡ x
append_nil [] = refl
append_nil (c ∷ x) = ap (λ l. c ∷ l) (append_nil x)

module _ {S : Type 0} (libc : Libc S) where
  -- There is room for a NUL, if there is a block.
  pub nul-lt-capacity :
      (sb : Builder S)
      → IsOpen libc sb
      → take 1 (drop sb.len (bytes_of sb.data_ptr)) ≡ 0 ∷ []
      → sb.len < sb.capacity
  nul-lt-capacity sb v nul = omega (
    arith,
    ap length nul,
    length-take 1 (drop sb.len (bytes_of sb.data_ptr)),
    length-drop sb.len (bytes_of sb.data_ptr),
    v.block,
  )

  len-lt-size_max : (sb : Builder S) → IsValid libc sb → sb.len + 1 < size_mod
  len-lt-size_max sb v = elim v.ended [
    | inl (null, zero_len) ↦ omega arith
    | inr nul ↦ omega (arith, nul-lt-capacity sb v.shape nul, v.shape.capacity_lt)
  ]

  -- The failures of an append of `x`: the text and its NUL would not fit SIZE_MAX, or memory ran out.
  abbrev Failed : Builder S → Bytes → Status → Type 0
  Failed sb x st = ((st ≡ overflow) × (size_max ≤ sb.len + length x)) ⊎ (st ≡ out_of_memory)

  -- What an append of `x` leaves behind: a valid builder, whose contents have grown by `x`, or
  -- which is the same as before where the append failed.
  abbrev pub Appended : Builder S → Bytes → Option (Status × Option (Builder S) × S) → Type 0
  Appended sb x r =
      (st : Status) × (sb' : Builder S) × (s' : S) × (r ≡ some (st, some sb', s'))
      × IsValid libc sb'
      × (((st ≡ ok) × (contents sb' ≡ contents sb ++ x)) ⊎ (Failed sb x st × (sb' ≡ sb)))

  -- The NUL behind the contents of a block with room for it.
  pub put_nul-IsValid :
      (sb : Builder S)
      → IsOpen libc sb
      → sb.len + 1 ≤ sb.capacity
      → (sb' : Builder S) × (put sb sb.len 0 ≡ some sb')
        × IsValid libc sb'
        × (contents sb' ≡ contents sb)
  unfolding put
  put_nul-IsValid sb v room = (
    record sb { data_ptr = some (overwrite sb.len (0 ∷ []) (bytes_of sb.data_ptr)) },
    rw (write_at-bytes_of sb.data_ptr sb.len 0 [] (omega (arith, v.block))) refl,
    record {
      shape = record {
        lawful = v.lawful;
        block = length-overwrite sb.len (0 ∷ []) (bytes_of sb.data_ptr) ∙ v.block;
        len_le = v.len_le;
        capacity_lt = v.capacity_lt;
      };
      ended =
          inr (take-drop-overwrite sb.len (0 ∷ []) (bytes_of sb.data_ptr) (omega (arith, v.block)));
    },
    take-overwrite sb.len sb.len (0 ∷ []) (bytes_of sb.data_ptr) (omega arith),
  )

  -- Bytes written behind the contents, and the NUL behind them.
  write_text-IsValid :
      (sb : Builder S) (c : ℕ) (x : Bytes)
      → IsOpen libc sb
      → sb.len + suc (length x) + 1 ≤ sb.capacity
      → (sb' : Builder S) × (put
            (record sb {
              data_ptr = some (overwrite sb.len (c ∷ x) (bytes_of sb.data_ptr));
              len = sb.len + suc (length x);
            })
            (sb.len + suc (length x))
            0
          ≡ some sb')
        × IsValid libc sb'
        × (contents sb' ≡ contents sb ++ (c ∷ x))
  write_text-IsValid sb c x v room =
      let (sb', e, valid, same) = put_nul-IsValid grown grown-IsOpen room in
      (
        sb',
        e,
        valid,
        same
            ∙ take_through-overwrite sb.len (c ∷ x) (bytes_of sb.data_ptr) (omega (arith, v.block)),
      )
    where
      grown : Builder S
      grown = record sb {
        data_ptr = some (overwrite sb.len (c ∷ x) (bytes_of sb.data_ptr));
        len = sb.len + suc (length x);
      }

      grown-IsOpen : IsOpen libc grown
      grown-IsOpen = record {
        lawful = v.lawful;
        block = length-overwrite sb.len (c ∷ x) (bytes_of sb.data_ptr) ∙ v.block;
        len_le = omega arith;
        capacity_lt = v.capacity_lt;
      }

  -- A step after sb_ensure that appends `x` where there is room.
  abbrev pub Appends : (Builder S → Option (Builder S)) → Builder S → ℕ → Bytes → Type 0
  Appends step sb needed x =
      (sb1 : Builder S)
      → Roomy libc sb needed sb1
      → (sb2 : Builder S) × (step sb1 ≡ some sb2)
        × IsValid libc sb2
        × (contents sb2 ≡ contents sb ++ x)

  pub on_room-Appended :
      (step : Builder S → Option (Builder S)) (sb : Builder S) (needed : ℕ) (x : Bytes)
      (r : Option (Status × Builder S × S))
      → IsValid libc sb
      → Ensured libc sb needed r
      → Appends step sb needed x
      → Appended sb x (do e ← r; on_room step e)
  unfolding on_room
  on_room-Appended step sb needed x r v (st, sb1, s1, e, inl (fine, roomy)) appends =
      let (sb2, done, valid, same) = appends sb1 roomy in
      rw (e, fine, done) (ok, sb2, s1, refl, valid, inl (refl, same))
  on_room-Appended step sb needed x r v (st, sb1, s1, e, inr (failed, kept)) appends =
      rw (e, failed)
        (out_of_memory, sb1, s1, refl, subst (IsValid libc) (sym kept) v, inr (inr refl, kept))

  pub Roomy-contents :
      (sb sb1 : Builder S) (needed : ℕ)
      → IsValid libc sb
      → Roomy libc sb needed sb1
      → contents sb1 ≡ contents sb
  Roomy-contents sb sb1 needed v r =
      ap (λ n. take n (bytes_of sb1.data_ptr)) r.same_len
      ∙ r.keeps sb.len 0 (omega (arith, v.shape.len_le))

  end_text-Appends : (sb : Builder S) → IsValid libc sb → Appends end_text sb (sb.len + 1) []
  unfolding end_text
  end_text-Appends sb v sb1 r =
      let (sb2, e, valid, same) = put_nul-IsValid sb1 r.shape (omega (arith, r.room, r.same_len)) in
      (
        sb2,
        e,
        valid,
        same ∙ Roomy-contents sb sb1 (sb.len + 1) v r ∙ sym (append_nil (contents sb)),
      )

  -- Bytes written behind the contents where there is room.
  text-Appends :
      (sb sb1 : Builder S) (c : ℕ) (x : Bytes)
      → IsValid libc sb
      → Roomy libc sb (sb.len + suc (length x) + 1) sb1
      → (sb2 : Builder S) × (put
            (record sb1 {
              data_ptr = some (overwrite sb1.len (c ∷ x) (bytes_of sb1.data_ptr));
              len = sb1.len + suc (length x);
            })
            (sb1.len + suc (length x))
            0
          ≡ some sb2)
        × IsValid libc sb2
        × (contents sb2 ≡ contents sb ++ (c ∷ x))
  text-Appends sb sb1 c x v r =
      let (sb2, e, valid, same) =
        write_text-IsValid sb1 c x r.shape (omega (arith, r.room, r.same_len)) in
      (sb2, e, valid, same ∙ ap (λ l. l ++ (c ∷ x)) (Roomy-contents sb sb1 _ v r))

  put_char-Appends :
      (sb : Builder S) (c : ℕ)
      → IsValid libc sb
      → sb.len + 2 < size_mod
      → Appends (put_char c) sb (sb.len + 1 + 1) (c ∷ [])
  unfolding put_char put
  put_char-Appends sb c v small sb1 r =
      let up : add_size sb1.len 1 ≡ sb1.len + 1 =
        add_size_exact sb1.len 1 (omega (arith, r.same_len)) in
      let (sb2, e, valid, same) = text-Appends sb sb1 c [] v r in
      (
        sb2,
        rw
            (
              write_at-bytes_of sb1.data_ptr sb1.len c []
                  (omega (arith, r.room, r.same_len, r.shape.block)),
              up,
            )
            e,
        valid,
        same,
      )

  copy_view-Appends :
      (sb : Builder S) (view : View)
      → IsValid libc sb
      → IsReadable view
      → 0 < view.len
      → sb.len + view.len + 1 < size_mod
      → Appends (copy_view view) sb (sb.len + view.len + 1) (text view)
  unfolding copy_view put
  copy_view-Appends sb view v readable pos small sb1 r = go (text view) refl
    where
      go :
          (t : Bytes)
          → text view ≡ t
          → (sb2 : Builder S) × (copy_view view sb1 ≡ some sb2)
            × IsValid libc sb2
            × (contents sb2 ≡ contents sb ++ text view)
      go [] e = absurd (omega (arith, ap length e, length-text view readable))
      go (c ∷ x) e =
          let n : view.len ≡ suc (length x) =
            omega (arith, ap length e, length-text view readable) in
          let up : add_size sb1.len view.len ≡ sb1.len + suc (length x) =
            omega (arith, r.same_len) in
          let roomy : Roomy libc sb (sb.len + suc (length x) + 1) sb1 =
            subst (λ k. Roomy libc sb (sb.len + k + 1) sb1) n r in
          let (sb2, done, valid, same) = text-Appends sb sb1 c x v roomy in
          (
            sb2,
            rw
                (
                  read_at-text view readable,
                  e,
                  write_at-bytes_of sb1.data_ptr sb1.len c x
                      (omega (arith, roomy.room, r.same_len, r.shape.block)),
                  up,
                )
                done,
            valid,
            same ∙ ap (λ t. contents sb ++ t) (sym e),
          )

  -- d4np_sb_append_view of a readable view on a valid builder puts the text of the view behind the
  -- contents; or it fails, as the text and a NUL would exceed SIZE_MAX or as memory ran out, and
  -- changes nothing. The builder stays valid.
  pub append_view-Appended :
      (sb : Builder S) (view : View) (s : S)
      → IsValid libc sb
      → IsReadable view
      → Appended sb (text view) (append_view libc (some sb) view s)
  unfolding append_view
  append_view-Appended sb view s v readable = elim (Bool-cases (view.len == 0)) [
    | inl empty ↦
        let z : view.len ≡ 0 = ground arith in
        let nil : text view ≡ [] = ap (λ n. take n (bytes_of view.ptr)) z in
        let up : add_size sb.len 1 ≡ sb.len + 1 = add_size_exact sb.len 1 (len-lt-size_max sb v) in
        rw (empty, up, nil)
          (on_room-Appended end_text sb (sb.len + 1) [] _ v
            (ensure-Ensured libc sb (sb.len + 1) s v.shape (len-lt-size_max sb v))
            (end_text-Appends sb v))
    | inr full ↦ rw full (elim (Bool-cases (ltb (sub_size (sub_size size_max sb.len) 1) view.len)) [
      | inl big ↦ rw big (
        overflow,
        sb,
        s,
        refl,
        v,
        inr (inl (refl, ground (arith, length-text view readable, len-lt-size_max sb v)), refl),
      )
      | inr fits ↦
          let pos : 0 < view.len = ground arith in
          let small : sb.len + view.len + 1 < size_mod = ground (arith, len-lt-size_max sb v) in
          let up : add_size (add_size sb.len view.len) 1 ≡ sb.len + view.len + 1 = omega arith in
          rw (fits, up)
            (on_room-Appended (copy_view view) sb (sb.len + view.len + 1) (text view) _ v
              (ensure-Ensured libc sb (sb.len + view.len + 1) s v.shape small)
              (copy_view-Appends sb view v readable pos small))
    ])
  ]

  -- d4np_sb_append_char on a valid builder of a length below SIZE_MAX - 1, so that the length plus 2
  -- does not wrap, puts the character behind the contents, or fails and changes nothing. The builder
  -- stays valid.
  pub append_char-Appended :
      (sb : Builder S) (c : ℕ) (s : S)
      → IsValid libc sb
      → sb.len + 2 < size_mod
      → Appended sb (c ∷ []) (append_char libc (some sb) c s)
  unfolding append_char
  append_char-Appended sb c s v small =
      let up : add_size sb.len 2 ≡ sb.len + 1 + 1 = omega arith in
      rw up (
        on_room-Appended (put_char c) sb (sb.len + 1 + 1) (c ∷ []) _ v
          (ensure-Ensured libc sb (sb.len + 1 + 1) s v.shape (omega arith))
          (put_char-Appends sb c v small))
