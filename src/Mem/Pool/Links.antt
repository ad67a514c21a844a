-- ===== src/Mem/Pool/Links.antt =====
-- The links in the slots of a pool, and the chain of the free ones.
use egl_utils_c.Base.{
  Contains, ℕ, ◌+◌, ◌*◌, ◌≤◌, ◌≡◌, ◌≢◌, refl, sym, ap, ap₂, ◌∙◌, arith, Option, true, none, some,
  List, [], ◌∷◌, Bytes, length, leb, le→leb, if◌then◌else◌, inl, inr, overwrite, length-overwrite,
  read_at, write_at-block, window-overwrite_ne, window-overwrite_self, ◌>>=◌,
}
use egl_utils_c.Mem.Pool.{Layout, IsLayout, pointer_size, load_link, store_link}
use egl_utils_c.Mem.Pool.Slots.{AreSlots}

module _ (layout : Layout) where
  -- From `head` the links lead through exactly these slots, to NULL.
  abbrev pub Chain : Bytes → Option ℕ → List ℕ → Type 0
  Chain b head [] = head ≡ none
  Chain b head (x ∷ xs) =
      (head ≡ some x)
      × ((next : Option ℕ) × (load_link layout (some b) x ≡ some next) × Chain b next xs)

  module _ (stride : ℕ) (wide : pointer_size ≤ stride) where
    load_link-overwrite_ne :
        (b : Bytes) (i j : ℕ) (src : Bytes)
        → length src ≤ stride
        → i ≢ j
        → load_link layout (some (overwrite (j * stride) src b)) (i * stride)
          ≡ load_link layout (some b) (i * stride)
    unfolding load_link
    load_link-overwrite_ne b i j src h ne =
        ap₂
          (λ (n : ℕ) (w : Bytes).
            (if leb (i * stride + pointer_size) n then some w else none)
            >>= (λ x. some (layout.decode x)))
          (length-overwrite (j * stride) src b)
          (window-overwrite_ne stride pointer_size b i j src wide h ne)

    -- A change of a slot that is not in the chain leaves the chain.
    pub Chain-overwrite :
        (n : ℕ) (b : Bytes) (j : ℕ) (src : Bytes) (head : Option ℕ) (xs : List ℕ)
        → length src ≤ stride
        → AreSlots stride n xs
        → ¬ Contains xs (j * stride)
        → Chain b head xs
        → Chain (overwrite (j * stride) src b) head xs
    Chain-overwrite n b j src head [] h slots out c = c
    Chain-overwrite n b j src head (x ∷ xs) h slots out (at_x, (next, loaded, c)) =
        let (i, i_lt, e) = slots x (inl refl) in
        let ne : i ≢ j = λ same. out (inl (ap (λ k. k * stride) (sym same) ∙ sym e)) in
        (
          at_x,
          (
            next,
            ap (load_link layout (some (overwrite (j * stride) src b))) e
                ∙ load_link-overwrite_ne b i j src h ne
                ∙ ap (load_link layout (some b)) (sym e)
                ∙ loaded,
            Chain-overwrite n b j src next xs h (λ y inside. slots y (inr inside))
                (λ inside. out (inr inside)) c,
          ),
        )

  module _ (lawful : IsLayout layout) where
    pub store_link-overwrite :
        (b : Bytes) (off : ℕ) (p : Option ℕ)
        → off + pointer_size ≤ length b
        → store_link layout (some b) off p ≡ some (overwrite off (layout.encode p) b)
    unfolding store_link
    store_link-overwrite b off p h =
        write_at-block (some b) off (layout.encode p) (omega arith)
          (omega (arith, lawful.encode_size p))

    pub load_link-overwrite_self :
        (stride : ℕ) (b : Bytes) (i : ℕ) (p : Option ℕ)
        → i * stride + pointer_size ≤ length b
        → load_link layout (some (overwrite (i * stride) (layout.encode p) b)) (i * stride) ≡ some p
    unfolding load_link read_at
    load_link-overwrite_self stride b i p h =
        let inside : leb (i * stride + pointer_size)
              (length (overwrite (i * stride) (layout.encode p) b))
            ≡ true =
          le→leb _ _ (omega (arith, length-overwrite (i * stride) (layout.encode p) b)) in
        rw
          (
            inside,
            window-overwrite_self stride pointer_size b i (layout.encode p) (lawful.encode_size p)
                h,
          )
          (ap some (lawful.decode-encode p))
