-- ===== src/Sys/Uuid.antt =====
-- d4np/sys/uuid.h and uuid.c. uint64_t arithmetic is taken modulo 2^64, and its bytes stand in memory
-- as on x86_64, the lowest first. A write outside an array gives `none`.
pub mod Version
pub mod Format
pub mod Canonical
mod Tests
use Prim.Native.Nat.{bit_xor, bit_or}
use egl_utils_c.Base.{
  ℕ, zero, suc, ◌+◌, ◌*◌, ◌/◌, ◌%◌, ◌^◌, bit_and, Bool, true, false, ◌||◌, Option, none, some, List,
  [], ◌∷◌, Bytes, get_elem?, get_or, write_at, add_size, mul_size, ◌==◌, if◌then◌else◌, ◌>>=◌,
}

-- d4np_uuid_t: `bytes` is an array of 16.
pub record Uuid : Type 0 where
  pub bytes : Bytes

-- g_rng_state and g_rng_seeded, with what seeds them: the clock's reading at that moment and the
-- addresses of the two variables.
pub record Random : Type 0 where
  pub rng_state : ℕ
  pub rng_seeded : Bool
  pub timestamp_ns : ℕ
  pub state_address : ℕ
  pub seeded_address : ℕ

-- The value drawn, and the state after it.
unfoldable pub splitmix64 : ℕ → ℕ × ℕ
splitmix64 state =
    let z0 = add_size state 11400714819323198485 in
    let z1 = mul_size (bit_xor z0 (z0 / 2 ^ 30)) 13787848793156543929 in
    let z2 = mul_size (bit_xor z1 (z1 / 2 ^ 27)) 10723151780598845931 in
    (bit_xor z2 (z2 / 2 ^ 31), z0)

unfoldable pub seed_of : Random → ℕ
seed_of r =
    let mixed =
      bit_xor (bit_xor r.timestamp_ns r.state_address) (mul_size r.seeded_address (2 ^ 17)) in
    if mixed == 0 then 1311768467463790320 else mixed

unfoldable pub next_random : Random → ℕ × Random
unfolding splitmix64 seed_of
next_random r =
    let start = if r.rng_seeded then r.rng_state else seed_of r in
    let (value, state) = splitmix64 start in
    (value, record r { rng_state = state; rng_seeded = true })

-- The bytes of a uint64_t.
abbrev pub le_bytes : ℕ → ℕ → Bytes
le_bytes zero x = []
le_bytes (suc n) x = (x % 256) ∷ le_bytes n (x / 256)

-- out[i] = (out[i] & keep) | mark
unfoldable pub mask_byte : ℕ → ℕ → ℕ → Bytes → Option Bytes
mask_byte i keep mark bytes = do
  b ← get_elem? bytes i
  write_at (some bytes) i (bit_or (bit_and b keep) mark ∷ [])

-- The memcpys of the two words, and the bits set after them.
unfoldable pub fill : Bytes → ℕ → ℕ → Option Uuid
unfolding mask_byte
fill out a b = do
  low ← write_at (some out) 0 (le_bytes 8 a)
  both ← write_at (some low) 8 (le_bytes 8 b)
  versioned ← mask_byte 6 15 64 both
  marked ← mask_byte 8 63 128 versioned
  some (record { bytes = marked })

unfoldable pub generate : Option Uuid → Random → Option (Option Uuid × Random)
unfolding next_random fill
generate none r = some (none, r)
generate (some out) r =
    let (a, r1) = next_random r in
    let (b, r2) = next_random r1 in do u ← fill out.bytes a b; some (some u, r2)

-- hex: "0123456789abcdef". The index is masked, so it is below 16.
abbrev pub hex : Bytes
hex = 48 ∷ 49 ∷ 50 ∷ 51 ∷ 52 ∷ 53 ∷ 54 ∷ 55 ∷ 56 ∷ 57 ∷ 97 ∷ 98 ∷ 99 ∷ 100 ∷ 101 ∷ 102 ∷ []

unfoldable pub hex_digit : ℕ → ℕ
hex_digit d = get_or hex (bit_and d 15) 0

abbrev pub dash_before : ℕ → Bool
dash_before i = (i == 4) || (i == 6) || (i == 8) || (i == 10)

-- The two digits of a byte, stored from `pos` on.
unfoldable pub put_digits : Bytes → ℕ → ℕ → Option (Bytes × ℕ)
unfolding hex_digit
put_digits out pos b = do
  high ← write_at (some out) pos (hex_digit (b / 2 ^ 4) ∷ [])
  low ← write_at (some high) (pos + 1) (hex_digit b ∷ [])
  some (low, pos + 2)

-- One round of the loop: the array and pos after it.
unfoldable pub format_byte : Bytes → ℕ → ℕ → ℕ → Option (Bytes × ℕ)
unfolding put_digits
format_byte out pos i b =
    if dash_before i
    then (do dashed ← write_at (some out) pos (45 ∷ []); put_digits dashed (pos + 1) b)
    else put_digits out pos b

-- The loop from i on, with `n` rounds left.
unfoldable pub format_loop : ℕ → ℕ → Bytes → Bytes → ℕ → Option (Bytes × ℕ)
unfolding format_byte
format_loop zero i bytes out pos = some (out, pos)
format_loop (suc n) i bytes out pos = do
  b ← get_elem? bytes i
  (out', pos') ← format_byte out pos i b
  format_loop n (suc i) bytes out' pos'

unfoldable pub format : Option Uuid → Option Bytes → Option (Option Bytes)
unfolding format_loop
format none out = some out
format (some u) none = some none
format (some u) (some out) = do
  (out', pos) ← format_loop 16 0 u.bytes out 0
  ended ← write_at (some out') pos (0 ∷ [])
  some (some ended)
