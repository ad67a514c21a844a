-- ===== src/Sys/Hash/Tests.antt =====
-- Runs of hash.c, and its theorem at two pieces.
use egl_utils_c.Base.{◌≡◌, refl, arith, some, [], ◌∷◌, ◌>>=◌}
use egl_utils_c.Sys.Hash.{fnv1a, fnv1a_continue, fnv1a_str}
use egl_utils_c.Sys.Hash.Concat.{fnv1a-append}

-- The hash of "a", as the FNV reference gives it.
fnv1a_run : fnv1a (some (97 ∷ [])) 1 ≡ some 12638187200555641996
unfolding fnv1a
fnv1a_run = refl

fnv1a-append_example :
    (do h ← fnv1a (some (97 ∷ 1 ∷ [])) 1; fnv1a_continue h (some (98 ∷ 2 ∷ [])) 1)
    ≡ fnv1a_str (some (97 ∷ 98 ∷ 0 ∷ 3 ∷ []))
fnv1a-append_example =
    fnv1a-append (97 ∷ []) (98 ∷ []) (1 ∷ []) (2 ∷ []) (3 ∷ []) (omega arith, (omega arith, tt))
