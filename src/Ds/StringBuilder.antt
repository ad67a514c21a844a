-- ===== src/Ds/StringBuilder.antt =====
-- d4np/ds/string_builder.h and string_builder.c. A result `none` is undefined behaviour (an access
-- outside a block) or a loop that does not end. The builder's block, a view that is appended and
-- the object itself are apart from each other.
pub mod Ensure
pub mod Append
pub mod Lifetime
mod Tests
use egl_utils_c.Base.{
  ℕ, zero, suc, ◌+◌, ◌-◌, ◌*◌, ◌/◌, Bool, true, false, not, ◌&&◌, ◌||◌, Option, none, some, [], ◌∷◌,
  Bytes, leb, ltb, ◌==◌, if◌then◌else◌, size_max, add_size, sub_size, mul_size, write_at, read_at,
  ◌>>=◌,
}
use egl_utils_c.Core.Status.{Status, ok, invalid_argument, out_of_memory, overflow}
use egl_utils_c.Core.Allocator.{Allocator, Libc, or_default, realloc, free}
use egl_utils_c.Str.View.{View, from_str, from_buf}

abbrev pub min_capacity : ℕ
min_capacity = 16

-- d4np_string_builder_t
pub record Builder (S : Type 0) : Type 0 where
  pub allocator : Option (Allocator S)
  pub data_ptr : Option Bytes
  pub len : ℕ
  pub capacity : ℕ

-- The loop of sb_ensure, on fuel.
unfoldable pub grow : ℕ → ℕ → ℕ → Option ℕ
grow zero newcap needed = none
grow (suc fuel) newcap needed =
    let rest = grow fuel (mul_size newcap 2) needed in
    if ltb newcap needed
    then (if ltb (size_max / 2) newcap then some needed else rest)
    else some newcap

module _ {S : Type 0} where
  -- sb->data[i] = c
  unfoldable pub put : Builder S → ℕ → ℕ → Option (Builder S)
  unfolding write_at
  put sb i c = do
    block ← write_at sb.data_ptr i (c ∷ [])
    some (record sb { data_ptr = some block })

  -- What a function does once sb_ensure has succeeded.
  unfoldable pub on_room :
      (Builder S → Option (Builder S))
      → Status × Builder S × S
      → Option (Status × Option (Builder S) × S)
  on_room step (ok, sb, s) = do sb' ← step sb; some (ok, some sb', s)
  on_room step (st, sb, s) = some (st, some sb, s)

  -- The copy of a view behind the contents, and the NUL.
  unfoldable pub copy_view : View → Builder S → Option (Builder S)
  unfolding put write_at read_at
  copy_view view sb = do
    src ← read_at view.ptr 0 view.len
    block ← write_at sb.data_ptr sb.len src
    let sb' : Builder S = record sb { data_ptr = some block; len = add_size sb.len view.len } in
        put sb' sb'.len 0

  unfoldable pub end_text : Builder S → Option (Builder S)
  unfolding put
  end_text sb = put sb sb.len 0

  unfoldable pub put_char : ℕ → Builder S → Option (Builder S)
  unfolding put
  put_char c sb = do
    sb' ← put sb sb.len c
    let sb2 : Builder S = record sb' { len = add_size sb'.len 1 } in put sb2 sb2.len 0

  -- The NUL that d4np_sb_reserve and d4np_sb_clear put at the start of a block.
  unfoldable pub put_nul : Builder S → Option Bytes → Option (Builder S)
  unfolding put
  put_nul sb none = some sb
  put_nul sb (some b) = put sb 0 0

  unfoldable pub start_text : Builder S → Option (Builder S)
  unfolding put_nul
  start_text sb = if sb.len == 0 then put_nul sb sb.data_ptr else some sb

module _ {S : Type 0} (libc : Libc S) where
  unfoldable pub grow_to : Builder S → ℕ → Option Bytes × S → Status × Builder S × S
  grow_to sb newcap (none, s) = (out_of_memory, sb, s)
  grow_to sb newcap (some p, s) = (ok, record sb { data_ptr = some p; capacity = newcap }, s)

  -- sb_ensure. The loop at most doubles a positive size of 64 bits, so it ends within 65 rounds.
  unfoldable pub ensure : Builder S → ℕ → S → Option (Status × Builder S × S)
  unfolding grow grow_to
  ensure sb needed s = if leb needed sb.capacity then some (ok, sb, s) else do
    newcap ← grow 65 (if sb.capacity == 0 then min_capacity else sb.capacity) needed
    some (grow_to sb newcap (realloc libc sb.allocator sb.data_ptr sb.capacity newcap 1 s))

  -- `storage` is the builder before the call, whose fields are all assigned.
  unfoldable pub init :
      Option (Builder S) → Option (Allocator S) → ℕ → S → Option (Status × Option (Builder S) × S)
  unfolding ensure on_room put
  init none allocator initial s = some (invalid_argument, none, s)
  init (some storage) allocator initial s =
      let sb : Builder S = record {
        allocator = some (or_default libc allocator);
        data_ptr = none;
        len = 0;
        capacity = 0;
      } in
      if ltb 0 initial
      then (do r ← ensure sb initial s; on_room (λ b. put b 0 0) r)
      else some (ok, some sb, s)

  unfoldable pub destroy_block : Builder S → Option Bytes → S → Builder S × S
  destroy_block sb none s = (sb, s)
  destroy_block sb (some b) s = (
    record sb { data_ptr = none; len = 0; capacity = 0 },
    free libc sb.allocator (some b) sb.capacity s,
  )

  unfoldable pub destroy : Option (Builder S) → S → Option (Builder S) × S
  unfolding destroy_block
  destroy none s = (none, s)
  destroy (some sb) s = let (sb', s') = destroy_block sb sb.data_ptr s in (some sb', s')

  unfoldable pub reserve : Option (Builder S) → ℕ → S → Option (Status × Option (Builder S) × S)
  unfolding ensure on_room start_text
  reserve none min s = some (invalid_argument, none, s)
  reserve (some sb) min s = do r ← ensure sb min s; on_room start_text r

  unfoldable pub append_view :
      Option (Builder S) → View → S → Option (Status × Option (Builder S) × S)
  unfolding ensure on_room end_text copy_view
  append_view none view s = some (invalid_argument, none, s)
  append_view (some sb) view s =
      if view.len == 0
      then (do r ← ensure sb (add_size sb.len 1) s; on_room end_text r)
      else if ltb (sub_size (sub_size size_max sb.len) 1) view.len
      then some (overflow, some sb, s)
      else do r ← ensure sb (add_size (add_size sb.len view.len) 1) s; on_room (copy_view view) r

  unfoldable pub append :
      Option (Builder S) → Option Bytes → S → Option (Status × Option (Builder S) × S)
  unfolding append_view
  append sb cstr s = do view ← from_str cstr; append_view sb view s

  unfoldable pub append_char : Option (Builder S) → ℕ → S → Option (Status × Option (Builder S) × S)
  unfolding ensure on_room put_char
  append_char none c s = some (invalid_argument, none, s)
  append_char (some sb) c s = do r ← ensure sb (add_size sb.len 2) s; on_room (put_char c) r

abbrev or_empty : Option Bytes → Bytes
or_empty none = 0 ∷ []
or_empty (some b) = b

abbrev view_of : Option Bytes → ℕ → View
view_of none len = from_buf none 0
view_of (some b) len = from_buf (some b) len

module _ {S : Type 0} where
  unfoldable pub cstr : Option (Builder S) → Bytes
  cstr none = 0 ∷ []
  cstr (some sb) = or_empty sb.data_ptr

  unfoldable pub view : Option (Builder S) → View
  unfolding from_buf
  view none = from_buf none 0
  view (some sb) = view_of sb.data_ptr sb.len

  unfoldable pub len : Option (Builder S) → ℕ
  len none = 0
  len (some sb) = sb.len

  unfoldable pub clear : Option (Builder S) → Option (Option (Builder S))
  unfolding put_nul
  clear none = some none
  clear (some sb) = do sb' ← put_nul (record sb { len = 0 }) sb.data_ptr; some (some sb')
