-- ===== src/Io/Combine/Joined.antt =====
-- d4np_path_combine writes the joined path, cut to the buffer, and returns its full length.
use egl_utils_c.Base.{
  ℕ, zero, suc, ◌+◌, ◌-◌, ◌≤◌, ◌<◌, ◌≡◌, refl, sym, ap, subst, ◌∙◌, arith, true, false, ◌&&◌,
  Option, none, some, [], ◌∷◌, ◌++◌, Bytes, length, length-append, length-take, length-drop, take,
  drop, take_all, take-append-drop, set, ltb, lt→ltb, ◌==◌, if◌then◌else◌, Bool-cases, inl, inr,
  overwrite, length-overwrite, RoomFor, size_mod, add_size,
}
use egl_utils_c.Str.View.Fields.{NoSep}
use egl_utils_c.Str.View.Equals.{strlen-append}
use egl_utils_c.Io.Combine.{
  or_empty, Writer, put, put_into, put_all, terminate, write_joined, path_combine,
}
use egl_utils_c.Io.Combine.Trim.{TrimsEnd, TrimsStart, trim_end-TrimsEnd, trim_start-TrimsStart}

overwrite_nil : (o : Bytes) → overwrite 0 [] o ≡ o
unfolding overwrite
overwrite_nil [] = refl
overwrite_nil (b ∷ o) = refl

set-overwrite :
    (x o : Bytes) (c : ℕ) → set (overwrite 0 x o) (length x) c ≡ overwrite 0 (x ++ (c ∷ [])) o
unfolding overwrite
set-overwrite [] [] c = refl
set-overwrite (d ∷ x) [] c = refl
set-overwrite [] (b ∷ o) c = ap (λ l. c ∷ l) (sym (overwrite_nil o))
set-overwrite (d ∷ x) (b ∷ o) c = ap (λ l. d ∷ l) (set-overwrite x o c)

append_nil : (x : Bytes) → x ++ [] ≡ x
append_nil [] = refl
append_nil (c ∷ x) = ap (λ l. c ∷ l) (append_nil x)

append_assoc : (x y z : Bytes) → (x ++ y) ++ z ≡ x ++ (y ++ z)
append_assoc [] y z = refl
append_assoc (c ∷ x) y z = ap (λ l. c ∷ l) (append_assoc x y z)

-- The writer after the bytes `x` are put, as far as they fit in front of a NUL.
abbrev written : Option Bytes → ℕ → Bytes → Writer
written none n x = record { out = none; w = 0; total = length x }
written (some o) n x = record {
  out = some (overwrite 0 (take (n - 1) x) o);
  w = length (take (n - 1) x);
  total = length x;
}

take_snoc_short : (n : ℕ) (x : Bytes) (c : ℕ) → n ≤ length x → take n (x ++ (c ∷ [])) ≡ take n x
take_snoc_short zero x c h = refl
take_snoc_short (suc n) [] c h = absurd (omega arith)
take_snoc_short (suc n) (d ∷ x) c h = ap (λ l. d ∷ l) (take_snoc_short n x c (omega arith))

put-written :
    (out : Option Bytes) (n : ℕ) (x : Bytes) (c : ℕ)
    → RoomFor out n
    → length x + 1 < size_mod
    → put n c (written out n x) ≡ some (written out n (x ++ (c ∷ [])))
unfolding put put_into
put-written none n x c room small =
    let up : add_size (length x) 1 ≡ length (x ++ (c ∷ [])) =
      omega (arith, length-append x (c ∷ [])) in
    ap (λ t. some (record { out = none; w = 0; total = t })) up
put-written (some o) n x c room small = elim (Bool-cases (ltb (length x + 1) n)) [
  | inl fits ↦
      let lt : length x + 1 < n = ground arith in
      let whole : take (n - 1) x ≡ x = take_all (n - 1) x (omega arith) in
      let longer : take (n - 1) (x ++ (c ∷ [])) ≡ x ++ (c ∷ []) =
        take_all (n - 1) (x ++ (c ∷ [])) (omega (arith, length-append x (c ∷ []))) in
      let up : add_size (length x) 1 ≡ length (x ++ (c ∷ [])) =
        omega (arith, length-append x (c ∷ [])) in
      let one : add_size (length x) 1 ≡ length x + 1 = omega arith in
      let test : ltb (add_size (length x) 1) n ≡ true = ap (λ k. ltb k n) one ∙ fits in
      let inside : ltb (length x) (length (overwrite 0 x o)) ≡ true =
        lt→ltb _ _ (omega (arith, length-overwrite 0 x o)) in
      rw (whole, longer, test, inside, set-overwrite x o c, up) refl
  | inr cut ↦
      let ge : n ≤ length x + 1 = ground arith in
      let same : take (n - 1) (x ++ (c ∷ [])) ≡ take (n - 1) x =
        take_snoc_short (n - 1) x c (omega arith) in
      let up : add_size (length x) 1 ≡ length (x ++ (c ∷ [])) =
        omega (arith, length-append x (c ∷ [])) in
      let full : ltb (add_size (length (take (n - 1) x)) 1) n ≡ false =
        blocked n (length (take (n - 1) x)) (omega (arith, length-take (n - 1) x))
          (omega (arith, length-take (n - 1) x)) in
      rw (same, full, up) refl
]
  where
    blocked : (n k : ℕ) → n ≤ k + 1 → k + 1 < size_mod → ltb (add_size k 1) n ≡ false
    blocked n k h small = ground arith

-- The puts of a loop, one after the other.
put_all-written :
    (out : Option Bytes) (n : ℕ) (s rest x : Bytes)
    → RoomFor out n
    → length x + length s < size_mod
    → put_all n (length s) (s ++ rest) (written out n x) ≡ some (written out n (x ++ s))
unfolding put_all
put_all-written out n [] rest x room small = ap (λ t. some (written out n t)) (sym (append_nil x))
put_all-written out n (c ∷ s) rest x room small = rw (put-written out n x c room (omega arith)) (
    put_all-written out n s rest (x ++ (c ∷ [])) room (omega (arith, length-append x (c ∷ [])))
    ∙ ap (λ t. some (written out n t)) (append_assoc x (c ∷ []) s))

-- The buffer at the end: the bytes that fit, and a NUL, unless it has no room at all.
abbrev pub ended : Option Bytes → ℕ → Bytes → Option Bytes
ended none n x = none
ended (some o) n x = if ltb 0 n then some (overwrite 0 (take (n - 1) x ++ (0 ∷ [])) o) else some o

terminate-ended :
    (out : Option Bytes) (n : ℕ) (x : Bytes)
    → RoomFor out n
    → terminate n (written out n x) (written out n x).out ≡ some (length x, ended out n x)
unfolding terminate
terminate-ended none n x room = refl
terminate-ended (some o) n x room = elim (Bool-cases (ltb 0 n)) [
  | inl pos ↦
      let lt : 0 < n = ground arith in
      let inside : ltb (length (take (n - 1) x)) (length (overwrite 0 (take (n - 1) x) o)) ≡ true =
        lt→ltb _ _ (omega (arith, length-take (n - 1) x, length-overwrite 0 (take (n - 1) x) o)) in
      rw (pos, inside, set-overwrite (take (n - 1) x) o 0) refl
  | inr zero_size ↦
      let none_left : n - 1 ≡ 0 = ground arith in rw (zero_size, none_left, overwrite_nil o) refl
]

take-append_left : (k : ℕ) (a z : Bytes) → k ≤ length a → take k (a ++ z) ≡ take k a
take-append_left zero a z h = refl
take-append_left (suc k) [] z h = absurd (omega arith)
take-append_left (suc k) (c ∷ a) z h = ap (λ l. c ∷ l) (take-append_left k a z (omega arith))

drop-append_left : (k : ℕ) (a z : Bytes) → k ≤ length a → drop k (a ++ z) ≡ drop k a ++ z
drop-append_left zero a z h = refl
drop-append_left (suc k) [] z h = absurd (omega arith)
drop-append_left (suc k) (c ∷ a) z h = drop-append_left k a z (omega arith)

-- The first `k` bytes of a string, and those from `k` on, put one after the other.
put_all-prefix :
    (out : Option Bytes) (n k : ℕ) (a z x : Bytes)
    → RoomFor out n
    → k ≤ length a
    → length x + k < size_mod
    → put_all n k (a ++ z) (written out n x) ≡ some (written out n (x ++ take k a))
put_all-prefix out n k a z x room le small =
    subst (λ t. put_all n k t (written out n x) ≡ some (written out n (x ++ take k a))) whole
      (subst
        (λ m.
          put_all n m (take k a ++ (drop k a ++ z)) (written out n x)
          ≡ some (written out n (x ++ take k a)))
        len (put_all-written out n (take k a) (drop k a ++ z) x room (omega (arith, len))))
  where
    len : length (take k a) ≡ k
    len = omega (arith, length-take k a)

    whole : take k a ++ (drop k a ++ z) ≡ a ++ z
    whole = sym (append_assoc (take k a) (drop k a) z) ∙ ap (λ t. t ++ z) (take-append-drop k a)

put_all-suffix :
    (out : Option Bytes) (n k : ℕ) (b z x : Bytes)
    → RoomFor out n
    → k ≤ length b
    → length x + length b < size_mod
    → put_all n (length b - k) (drop k (b ++ z)) (written out n x)
      ≡ some (written out n (x ++ drop k b))
put_all-suffix out n k b z x room le small =
    let len : length (drop k b) ≡ length b - k = length-drop k b in
    rw (drop-append_left k b z le, sym len)
      (put_all-written out n (drop k b) z x room (omega (arith, length-drop k b)))

written_nil :
    (out : Option Bytes) (n : ℕ) → written out n [] ≡ record { out = out; w = 0; total = 0 }
written_nil none n = refl
written_nil (some o) n = rw (take_nil (n - 1), overwrite_nil o) refl
  where
    take_nil : (k : ℕ) → take {A = ℕ} k [] ≡ []
    take_nil zero = refl
    take_nil (suc k) = refl

-- The path joined from the first `k` bytes of `a` and those of `b` from `j` on.
abbrev pub joined : Bytes → ℕ → Bytes → ℕ → Bytes
joined a k b j =
    if ltb 0 (length a) && k == 0
    then 47 ∷ drop j b
    else (take k a ++ (if ltb 0 k && ltb 0 (length b - j) then 47 ∷ [] else [])) ++ drop j b

write_joined-joined :
    (out : Option Bytes) (n : ℕ) (a za : Bytes) (k : ℕ) (b zb : Bytes) (j : ℕ)
    → RoomFor out n
    → k ≤ length a
    → j ≤ length b
    → length a + length b + 1 < size_mod
    → write_joined n
        (ltb 0 (length a) && k == 0)
        k
        (a ++ za)
        (length b - j)
        (drop j (b ++ zb))
        (written out n [])
      ≡ some (length (joined a k b j), ended out n (joined a k b j))
unfolding write_joined
write_joined-joined out n a za k b zb j room ka jb small =
    elim (Bool-cases (ltb 0 (length a) && k == 0)) [
      | inl root ↦
          rw
            (
              root,
              put-written out n [] 47 room (omega arith),
              put_all-suffix out n j b zb (47 ∷ []) room jb (omega arith),
            )
            (terminate-ended out n (47 ∷ drop j b) room)
      | inr plain ↦
          rw (plain, put_all-prefix out n k a za [] room ka (omega arith))
            (elim (Bool-cases (ltb 0 k && ltb 0 (length b - j))) [
              | inl both ↦
                  rw
                    (
                      both,
                      put-written out n (take k a) 47 room (omega (arith, length-take k a)),
                      put_all-suffix out n j b zb (take k a ++ (47 ∷ [])) room jb
                          (omega (arith, length-take k a, length-append (take k a) (47 ∷ []))),
                    )
                    (terminate-ended out n ((take k a ++ (47 ∷ [])) ++ drop j b) room)
              | inr one ↦
                  rw
                    (
                      one,
                      append_nil (take k a),
                      put_all-suffix out n j b zb (take k a) room jb
                          (omega (arith, length-take k a)),
                    )
                    (terminate-ended out n (take k a ++ drop j b) room)
            ])
    ]

-- A pointer to the string `a`; NULL counts as the empty string.
pub record IsString (p : Option Bytes) (a : Bytes) : Type 0 where
  pub rest : Bytes
  pub at : or_empty p ≡ a ++ (0 ∷ rest)
  pub no_nul : NoSep 0 a

-- d4np_path_combine of two strings, NULL counting as empty, drops the trailing separators of the
-- first and the leading ones of the second, and joins them by a separator if both are left, or
-- behind a separator if the first was nothing but separators. It returns the length of that path,
-- and writes as much of it as fits in the buffer with a NUL.
pub path_combine-joined :
    (out : Option Bytes) (n : ℕ) (pa pb : Option Bytes) (a b : Bytes)
    → IsString pa a
    → IsString pb b
    → RoomFor out n
    → length a + length b + 1 < size_mod
    → (k : ℕ) × (j : ℕ) × TrimsEnd a (length a) k
      × TrimsStart b j
      × (path_combine out n pa pb ≡ some (length (joined a k b j), ended out n (joined a k b j)))
unfolding path_combine
path_combine-joined out n pa pb a b sa sb room small =
    let (k, ek, trims) = trim_end-TrimsEnd (length a) a (0 ∷ sa.rest) (omega arith) in
    let (j, ej, starts) = trim_start-TrimsStart b (0 ∷ sb.rest) in
    (
      k,
      j,
      trims,
      starts,
      rw
          (
            sa.at,
            sb.at,
            strlen-append a sa.rest sa.no_nul,
            strlen-append b sb.rest sb.no_nul,
            ek,
            ej,
          )
          (ap
              (λ w.
                write_joined n (ltb 0 (length a) && k == 0) k (a ++ (0 ∷ sa.rest)) (length b - j)
                  (drop j (b ++ (0 ∷ sb.rest))) w)
              (sym (written_nil out n))
            ∙ write_joined-joined out n a (0 ∷ sa.rest) k b (0 ∷ sb.rest) j room trims.0 starts.0
                small),
    )
