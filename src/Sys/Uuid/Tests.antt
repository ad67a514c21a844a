-- ===== src/Sys/Uuid/Tests.antt =====
-- Runs of uuid.c, and its theorems at concrete values.
use egl_utils_c.Base.{◌≡◌, refl, arith, some, ◌∷◌, ◌++◌, drop, replicate, false}
use egl_utils_c.Sys.Uuid.{Uuid, Random, generate, format}
use egl_utils_c.Sys.Uuid.Version.{
  IsVersion4, words, with_version, with_variant, generate-IsVersion4,
}
use egl_utils_c.Sys.Uuid.Canonical.{canonical, format-canonical}

abbrev zeros : Uuid
zeros = record { bytes = replicate 16 0 }

-- A thread that has drawn nothing yet.
abbrev unseeded : Random
unseeded = record {
  rng_state = 0;
  rng_seeded = false;
  timestamp_ns = 1;
  state_address = 4096;
  seeded_address = 4104;
}

abbrev sample : Uuid
sample = record { bytes = 0 ∷ 17 ∷ 34 ∷ 255 ∷ 16 ∷ 32 ∷ 79 ∷ 171 ∷ 190 ∷ replicate 7 9 }

generate-IsVersion4_example :
    (u : Uuid) × (r' : Random) × (generate (some zeros) unseeded ≡ some (some u, r'))
    × (u.bytes ≡ with_variant (with_version (words unseeded)))
    × IsVersion4 u.bytes
generate-IsVersion4_example = generate-IsVersion4 zeros unseeded refl

format-canonical_example :
    format (some sample) (some (replicate 40 1))
    ≡ some (some (canonical sample.bytes ++ (0 ∷ drop 37 (replicate 40 1))))
format-canonical_example = format-canonical sample (replicate 40 1) refl (omega arith)
