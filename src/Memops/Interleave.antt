-- ===== src/Memops/Interleave.antt =====
-- The functions of common/memops.c that fill a channel with a value, and that copy one.
pub mod Copied
pub mod Filled
use jack_example_tools.Base.{
  ℕ, zero, suc, ◌+◌, ◌-◌, ◌%◌, ◌^◌, true, false, Option, none, some, List, [], ◌∷◌, ◌>>=◌, ◌==◌,
  ltb, if◌then◌else◌, replicate, length,
}
use jack_example_tools.Bytes.{ByteOrder, memcpy, word_bytes}
use jack_example_tools.Machine.{sub_size}
use jack_example_tools.Netjack.Midi.{slice}
use jack_example_tools.Memops.Loops.{put}
use jack_example_tools.Memops.Out.{bytes_16}

-- A `char` as an `int`, with its sign.
abbrev pub int_of_char : ℕ → ℕ
int_of_char val = if ltb val (2 ^ 7) then val else val + (2 ^ 32 - 2 ^ 8)

-- What one round of `memset_interleave` stores.
unfoldable pub unit_of : ByteOrder → ℕ → ℕ → List ℕ
unfolding word_bytes
unit_of order val unit_bytes =
    if unit_bytes == 1
    then val ∷ []
    else if unit_bytes == 2
    then bytes_16 order (int_of_char val)
    else if unit_bytes == 4
    then word_bytes order (int_of_char val)
    else replicate unit_bytes val

-- `while (bytes)`, on fuel: `bytes` is `unsigned long` and wraps. `none` is an access outside a block,
-- or no fuel left.
unfoldable pub fill_loop : ℕ → List ℕ → ℕ → List ℕ → ℕ → ℕ → ℕ → Option (List ℕ)
fill_loop zero dst at unit bytes unit_bytes skip = none
fill_loop (suc fuel) dst at unit bytes unit_bytes skip = elim (bytes == 0) [
  | true ↦ some dst
  | false ↦ do
    dst ← put dst at unit
    fill_loop fuel dst (at + skip) unit (sub_size bytes unit_bytes) unit_bytes skip
]

unfoldable pub memset_interleave : ByteOrder → ℕ → List ℕ → ℕ → ℕ → ℕ → ℕ → ℕ → Option (List ℕ)
memset_interleave order fuel dst at val bytes unit_bytes skip_bytes =
    fill_loop fuel dst at (unit_of order val unit_bytes) bytes unit_bytes skip_bytes

unfoldable pub memcpy_fake : List ℕ → List ℕ → ℕ → Option (List ℕ)
memcpy_fake dst src src_bytes = memcpy dst 0 src src_bytes

-- The loop of the copies, of units of `size` bytes.
unfoldable pub copy_loop : ℕ → ℕ → List ℕ → ℕ → List ℕ → ℕ → ℕ → ℕ → ℕ → Option (List ℕ)
copy_loop size zero dst at src from src_bytes dst_skip src_skip = none
copy_loop size (suc fuel) dst at src from src_bytes dst_skip src_skip = elim (src_bytes == 0) [
  | true ↦ some dst
  | false ↦ do
    unit ← slice src from size
    dst ← put dst at unit
    copy_loop size fuel dst (at + dst_skip) src (from + src_skip) (sub_size src_bytes size) dst_skip
        src_skip
]

-- The type of the three copies: fuel, the destination and the offset of the channel in it, the source
-- and the offset of the channel in it, the number of bytes, and the two skips.
abbrev pub Copy : Type 0
Copy = ℕ → List ℕ → ℕ → List ℕ → ℕ → ℕ → ℕ → ℕ → Option (List ℕ)

unfoldable pub memcpy_interleave_d16_s16 : Copy
memcpy_interleave_d16_s16 fuel dst at src from src_bytes dst_skip src_skip =
    copy_loop 2 fuel dst at src from src_bytes dst_skip src_skip

unfoldable pub memcpy_interleave_d24_s24 : Copy
memcpy_interleave_d24_s24 fuel dst at src from src_bytes dst_skip src_skip =
    copy_loop 3 fuel dst at src from src_bytes dst_skip src_skip

unfoldable pub memcpy_interleave_d32_s32 : Copy
memcpy_interleave_d32_s32 fuel dst at src from src_bytes dst_skip src_skip =
    copy_loop 4 fuel dst at src from src_bytes dst_skip src_skip
