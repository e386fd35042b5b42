-- ===== src/Memops/In.antt =====
-- The functions of common/memops.c that convert the integers of an interface to samples.
use jack_example_tools.Base.{
  ℕ, ◌+◌, ◌-◌, ◌*◌, ◌/◌, ◌%◌, ◌^◌, Option, List, [], ◌∷◌, ◌==◌, ltb, if◌then◌else◌, ℤ, pos, negsuc,
}
use jack_example_tools.Bytes.{ByteOrder, little, big}
use jack_example_tools.Memops.Float.{Floats, int_value, shift_down, max_16, max_24, max_32}
use jack_example_tools.Memops.Loops.{
  Target, sse2, neon, order_of, read_loop, read_unrolled, load_lanes,
}

-- The number that bytes spell, the least significant one first, or last.
abbrev pub word_le : List ℕ → ℕ
word_le [] = 0
word_le (b ∷ bs) = b + 256 * word_le bs

-- `x <<= 8; x |= b` for each byte.
abbrev pub shift_in : ℕ → List ℕ → ℕ
shift_in x [] = x
shift_in x (b ∷ bs) = shift_in (x * 256 + b) bs

-- A word of the host, and one of the opposite order, from its bytes.
unfoldable pub host_word : ByteOrder → List ℕ → ℕ
host_word little bs = word_le bs
host_word big bs = shift_in 0 bs

unfoldable pub swapped_word : ByteOrder → List ℕ → ℕ
swapped_word little bs = shift_in 0 bs
swapped_word big bs = word_le bs

-- The number that a `short` stands for.
abbrev pub short_value : ℕ → ℤ
short_value w = if ltb w (2 ^ 15) then pos w else negsuc (2 ^ 16 - w - 1)

-- The top byte of a 24-bit word is filled with its sign.
unfoldable pub sign_24 : ℕ → ℕ
sign_24 w = if w / 2 ^ 23 % 2 == 1 then w % 2 ^ 24 + (2 ^ 32 - 2 ^ 24) else w

module _ (fl : Floats) where
  open fl use {F, mul, div, of_int, widen, narrow, mul_d, div_d, of_int_d}

  -- `1.0/SAMPLE_24BIT_SCALING`, a `double` that is stored in a `float`; and the others.
  abbrev pub scaling_16 : F
  scaling_16 = narrow (div_d (of_int_d (pos 1)) (widen (of_int (pos max_16))))

  abbrev pub scaling_24 : F
  scaling_24 = narrow (div_d (of_int_d (pos 1)) (widen (of_int (pos max_24))))

  -- The type of these functions: the number of samples, the source, the offset of the channel in it,
  -- and the skip; the result is what is stored in `dst`.
  abbrev pub Reader : Type 0
  Reader = ℕ → List ℕ → ℕ → ℕ → Option (List F)

  unfoldable pub from_upper_24 : ℕ → F
  from_upper_24 x = mul (of_int (int_value (shift_down x))) scaling_24

  unfoldable pub from_24 : ℕ → F
  from_24 x = mul (of_int (int_value x)) scaling_24

  unfoldable pub sample_move_ds_s32u24s : Target → Reader
  sample_move_ds_s32u24s neon nsamples src at skip =
      read_unrolled (load_lanes 4 (λ bs. from_upper_24 (shift_in 0 bs)) skip) 4
        (λ bs. from_upper_24 (swapped_word little bs)) nsamples src at skip
  sample_move_ds_s32u24s t nsamples src at skip =
      read_loop 4 (λ bs. from_upper_24 (swapped_word (order_of t) bs)) nsamples src at skip

  unfoldable pub sample_move_ds_s32u24 : Target → Reader
  sample_move_ds_s32u24 sse2 nsamples src at skip =
      read_unrolled (λ src at. read_loop 4 (λ bs. from_upper_24 (word_le bs)) 4 src at skip) 4
        (λ bs. from_upper_24 (host_word little bs)) nsamples src at skip
  sample_move_ds_s32u24 neon nsamples src at skip =
      read_unrolled (load_lanes 4 (λ bs. from_upper_24 (word_le bs)) skip) 4
        (λ bs. from_upper_24 (host_word little bs)) nsamples src at skip
  sample_move_ds_s32u24 t nsamples src at skip =
      read_loop 4 (λ bs. from_upper_24 (host_word (order_of t) bs)) nsamples src at skip

  unfoldable pub sample_move_ds_s32s : Target → Reader
  sample_move_ds_s32s t nsamples src at skip =
      let scaling = narrow (div_d (of_int_d (pos 1)) (of_int_d (pos max_32))) in
      read_loop 4
        (λ bs. narrow (widen (mul (of_int (int_value (swapped_word (order_of t) bs))) scaling)))
        nsamples src at skip

  unfoldable pub sample_move_ds_s32 : Target → Reader
  sample_move_ds_s32 t nsamples src at skip =
      let scaling = div_d (of_int_d (pos 1)) (of_int_d (pos max_32)) in
      read_loop 4 (λ bs. narrow (mul_d (of_int_d (int_value (host_word (order_of t) bs))) scaling))
        nsamples src at skip

  -- `vshlq_n_u32` and `vshrq_n_s32` by 8: the sign of the lower 24 bits.
  unfoldable pub from_lower_24 : ℕ → F
  from_lower_24 x = from_24 (shift_down (x * 2 ^ 8 % 2 ^ 32))

  unfoldable pub sample_move_ds_s32l24s : Target → Reader
  sample_move_ds_s32l24s neon nsamples src at skip =
      read_unrolled (load_lanes 4 (λ bs. from_lower_24 (shift_in 0 bs)) skip) 4
        (λ bs. from_24 (swapped_word little bs)) nsamples src at skip
  sample_move_ds_s32l24s t nsamples src at skip =
      read_loop 4 (λ bs. from_24 (swapped_word (order_of t) bs)) nsamples src at skip

  unfoldable pub sample_move_ds_s32l24 : Target → Reader
  sample_move_ds_s32l24 sse2 nsamples src at skip =
      read_unrolled (λ src at. read_loop 4 (λ bs. from_24 (word_le bs)) 4 src at skip) 4
        (λ bs. from_24 (sign_24 (host_word little bs))) nsamples src at skip
  sample_move_ds_s32l24 neon nsamples src at skip =
      read_unrolled (load_lanes 4 (λ bs. from_lower_24 (word_le bs)) skip) 4
        (λ bs. from_24 (sign_24 (host_word little bs))) nsamples src at skip
  sample_move_ds_s32l24 t nsamples src at skip =
      read_loop 4 (λ bs. from_24 (sign_24 (host_word (order_of t) bs))) nsamples src at skip

  -- 24 bits that end at the top of an `int` of four bytes, the rest 0, divided by 256 as well.
  unfoldable pub from_top_24 : ℕ → F
  from_top_24 x =
      mul (of_int (int_value (x * 256))) (narrow (div_d (widen scaling_24) (of_int_d (pos 256))))

  unfoldable pub sample_move_ds_s24s : Target → Reader
  sample_move_ds_s24s neon nsamples src at skip =
      read_unrolled (λ src at. read_loop 3 (λ bs. from_top_24 (shift_in 0 bs)) 4 src at skip) 3
        (λ bs. from_24 (sign_24 (swapped_word little bs))) nsamples src at skip
  sample_move_ds_s24s t nsamples src at skip =
      read_loop 3 (λ bs. from_24 (sign_24 (swapped_word (order_of t) bs))) nsamples src at skip

  -- `1.f/SAMPLE_24BIT_SCALING`
  abbrev pub scaling_24f : F
  scaling_24f = div (of_int (pos 1)) (of_int (pos max_24))

  -- The three bytes are copied behind the first byte of an `int`, whose value `low` is not set.
  unfoldable pub from_24_above : ℕ → ℕ → F
  from_24_above low x = mul (of_int (int_value (shift_down (x * 256 + low)))) scaling_24f

  unfoldable pub sample_move_ds_s24 : ℕ → Target → Reader
  sample_move_ds_s24 low sse2 nsamples src at skip =
      read_unrolled (λ src at. read_loop 3 (λ bs. from_24_above low (word_le bs)) 4 src at skip) 3
        (λ bs. from_24_above low (host_word little bs)) nsamples src at skip
  sample_move_ds_s24 low neon nsamples src at skip =
      read_unrolled
        (λ src at.
          read_loop 3
            (λ bs.
              mul (of_int (int_value (word_le bs * 256)))
                (narrow (div_d (widen scaling_24f) (of_int_d (pos 256)))))
            4 src at skip)
        3 (λ bs. from_24_above low (host_word little bs)) nsamples src at skip
  sample_move_ds_s24 low t nsamples src at skip =
      read_loop 3 (λ bs. from_24_above low (host_word (order_of t) bs)) nsamples src at skip

  unfoldable pub from_16 : ℕ → F
  from_16 x = mul (of_int (short_value x)) scaling_16

  unfoldable pub sample_move_ds_s16s : Target → Reader
  sample_move_ds_s16s neon nsamples src at skip =
      read_unrolled (load_lanes 2 (λ bs. from_16 (shift_in 0 bs)) skip) 2
        (λ bs. from_16 (swapped_word little bs)) nsamples src at skip
  sample_move_ds_s16s t nsamples src at skip =
      read_loop 2 (λ bs. from_16 (swapped_word (order_of t) bs)) nsamples src at skip

  unfoldable pub sample_move_ds_s16 : Target → Reader
  sample_move_ds_s16 neon nsamples src at skip =
      read_unrolled (load_lanes 2 (λ bs. from_16 (word_le bs)) skip) 2
        (λ bs. from_16 (host_word little bs)) nsamples src at skip
  sample_move_ds_s16 t nsamples src at skip =
      read_loop 2 (λ bs. from_16 (host_word (order_of t) bs)) nsamples src at skip
