-- ===== src/Memops/Words.antt =====
-- The bytes that common/memops.c stores of an integer, read back as it reads them.
use jack_example_tools.Base.{
  ℕ, ◌+◌, ◌-◌, ◌*◌, ◌%◌, ◌^◌, ◌≤◌, ◌<◌, ◌≡◌, ◌⊎◌, inl, inr, arith, Bool-cases, ltb, ℤ, pos, negsuc,
}
use jack_example_tools.Bytes.{ByteOrder, little, big, net32, word_bytes}
use jack_example_tools.Memops.Float.{int_bits, int_value, shift_up, shift_down}
use jack_example_tools.Memops.Out.{bytes_32s, bytes_24s, bytes_24, bytes_16s, bytes_16}
use jack_example_tools.Memops.In.{host_word, swapped_word, short_value, sign_24}
use jack_example_tools.Memops.Range.{Within, minus_parts}

-- An `int` of 16 or 24 significant bits.
abbrev pub Narrow : ℕ → ℕ → Type 0
Narrow half w = (w < 2 ^ 32) × ((w < half) ⊎ (2 ^ 32 - half ≤ w))

pub int_bits_lt : (z : ℤ) → int_bits z < 2 ^ 32
int_bits_lt (pos n) = omega arith
int_bits_lt (negsuc n) = omega arith

pub Within-Narrow :
    (max w : ℕ) → max < 2 ^ 31 → w < 2 ^ 32 → Within max (int_value w) → Narrow (max + 1) w
Within-Narrow max w h lt within = elim (Bool-cases (ltb w (2 ^ 31))) [
  | inl low ↦ (lt, inl (positive (rw low at within)))
  | inr high ↦ (lt, inr (negative (rw high at within)))
]
  where
    positive : Within max (pos w) → w < max + 1
    positive (lower, upper) = omega (arith, upper)

    negative : Within max (negsuc (2 ^ 32 - w - 1)) → 2 ^ 32 - (max + 1) ≤ w
    negative within = omega (arith, within, minus_parts max)

pub swapped_word-bytes_32s :
    (order : ByteOrder) (w : ℕ) → w < 2 ^ 32 → swapped_word order (bytes_32s order w) ≡ w
unfolding swapped_word bytes_32s word_bytes net32
swapped_word-bytes_32s little w h = omega arith
swapped_word-bytes_32s big w h = omega arith

pub host_word-word_bytes :
    (order : ByteOrder) (w : ℕ) → w < 2 ^ 32 → host_word order (word_bytes order w) ≡ w
unfolding host_word word_bytes net32
host_word-word_bytes little w h = omega arith
host_word-word_bytes big w h = omega arith

pub swapped_word-bytes_24s :
    (order : ByteOrder) (w : ℕ) → swapped_word order (bytes_24s order w) ≡ w % 2 ^ 24
unfolding swapped_word bytes_24s
swapped_word-bytes_24s little w = omega arith
swapped_word-bytes_24s big w = omega arith

pub host_word-bytes_24 :
    (order : ByteOrder) (w : ℕ) → host_word order (bytes_24 order w) ≡ w % 2 ^ 24
unfolding host_word bytes_24 word_bytes net32
host_word-bytes_24 little w = omega arith
host_word-bytes_24 big w = omega arith

pub swapped_word-bytes_16s :
    (order : ByteOrder) (w : ℕ) → swapped_word order (bytes_16s order w) ≡ w % 2 ^ 16
unfolding swapped_word bytes_16s
swapped_word-bytes_16s little w = omega arith
swapped_word-bytes_16s big w = omega arith

pub host_word-bytes_16 :
    (order : ByteOrder) (w : ℕ) → host_word order (bytes_16 order w) ≡ w % 2 ^ 16
unfolding host_word bytes_16
host_word-bytes_16 little w = omega arith
host_word-bytes_16 big w = omega arith

pub sign_24_low : (w : ℕ) → Narrow (2 ^ 23) w → sign_24 (w % 2 ^ 24) ≡ w
unfolding sign_24
sign_24_low w (h, k) = ground arith

pub sign_24_whole : (w : ℕ) → Narrow (2 ^ 23) w → sign_24 w ≡ w
unfolding sign_24
sign_24_whole w (h, k) = ground arith

pub shift_down-shift_up : (w : ℕ) → Narrow (2 ^ 23) w → shift_down (shift_up w) ≡ w
shift_down-shift_up w (h, k) = ground arith

pub shift_down_above :
    (low w : ℕ) → low < 256 → Narrow (2 ^ 23) w → shift_down (w % 2 ^ 24 * 256 + low) ≡ w
shift_down_above low w l (h, k) = ground arith

pub short_value_low : (w : ℕ) → Narrow (2 ^ 15) w → short_value (w % 2 ^ 16) ≡ int_value w
short_value_low w (h, k) = ground arith
