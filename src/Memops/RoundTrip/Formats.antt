-- ===== src/Memops/RoundTrip/Formats.antt =====
-- The ten formats of common/memops.c that have a writer and a reader.
use jack_example_tools.Base.{ℕ, ◌%◌, ◌^◌, ◌<◌, ◌≡◌, refl, ap, ◌∙◌, arith, List, length, pos}
use jack_example_tools.Bytes.{ByteOrder, little, big, net32, word_bytes}
use jack_example_tools.Memops.Float.{
  Floats, float_16, float_24, float_24l32, float_24u32, float_32, shift_down, max_16, max_24,
  max_32, int_value,
}
use jack_example_tools.Memops.Loops.{plain, write_loop, read_loop}
use jack_example_tools.Memops.Out.{
  Writer, bytes_32s, bytes_24s, bytes_24, bytes_16s, bytes_16, sample_move_d32_sss,
  sample_move_d32_ss, sample_move_d32u24_sss, sample_move_d32u24_ss, sample_move_d32l24_sss,
  sample_move_d32l24_ss, sample_move_d24_sss, sample_move_d24_ss, sample_move_d16_sss,
  sample_move_d16_ss,
}
use jack_example_tools.Memops.In.{
  Reader, host_word, swapped_word, sign_24, scaling_16, scaling_24, scaling_24f, from_upper_24,
  from_24, from_24_above, from_16, sample_move_ds_s32u24s, sample_move_ds_s32u24,
  sample_move_ds_s32s, sample_move_ds_s32, sample_move_ds_s32l24s, sample_move_ds_s32l24,
  sample_move_ds_s24s, sample_move_ds_s24, sample_move_ds_s16s, sample_move_ds_s16,
}
use jack_example_tools.Memops.Range.{
  FloatLaws, IsNumber, float_16-Within, float_24u32-shift_up, clamped, float_16-clamped,
  float_24-clamped,
}
use jack_example_tools.Memops.Words.{
  Narrow, Within-Narrow, int_bits_lt, swapped_word-bytes_32s, host_word-word_bytes,
  swapped_word-bytes_24s, host_word-bytes_24, swapped_word-bytes_16s, host_word-bytes_16,
  sign_24_low, sign_24_whole, shift_down-shift_up, shift_down_above, short_value_low,
}

-- A format is called as in the names of the functions.
pub data Format : Type 0 where
  d16 d16s d24 d24s d32u24 d32u24s d32l24 d32l24s d32 d32s : Format

abbrev pub size_of : Format → ℕ
size_of d16 = 2
size_of d16s = 2
size_of d24 = 3
size_of d24s = 3
size_of d32u24 = 4
size_of d32u24s = 4
size_of d32l24 = 4
size_of d32l24s = 4
size_of d32 = 4
size_of d32s = 4

module _ (fl : Floats) where
  open fl use {F, mul, of_int, widen, narrow, mul_d, div_d, of_int_d}

  -- The functions of a format, on a host without a vector unit.
  unfoldable pub writer_of : Format → ByteOrder → Writer fl
  writer_of d16 order = sample_move_d16_ss fl (plain order)
  writer_of d16s order = sample_move_d16_sss fl (plain order)
  writer_of d24 order = sample_move_d24_ss fl (plain order)
  writer_of d24s order = sample_move_d24_sss fl (plain order)
  writer_of d32u24 order = sample_move_d32u24_ss fl (plain order)
  writer_of d32u24s order = sample_move_d32u24_sss fl (plain order)
  writer_of d32l24 order = sample_move_d32l24_ss fl (plain order)
  writer_of d32l24s order = sample_move_d32l24_sss fl (plain order)
  writer_of d32 order = sample_move_d32_ss fl (plain order)
  writer_of d32s order = sample_move_d32_sss fl (plain order)

  -- `low` is a byte that `sample_move_dS_s24` does not set.
  unfoldable pub reader_of : ℕ → Format → ByteOrder → Reader fl
  reader_of low d16 order = sample_move_ds_s16 fl (plain order)
  reader_of low d16s order = sample_move_ds_s16s fl (plain order)
  reader_of low d24 order = sample_move_ds_s24 fl low (plain order)
  reader_of low d24s order = sample_move_ds_s24s fl (plain order)
  reader_of low d32u24 order = sample_move_ds_s32u24 fl (plain order)
  reader_of low d32u24s order = sample_move_ds_s32u24s fl (plain order)
  reader_of low d32l24 order = sample_move_ds_s32l24 fl (plain order)
  reader_of low d32l24s order = sample_move_ds_s32l24s fl (plain order)
  reader_of low d32 order = sample_move_ds_s32 fl (plain order)
  reader_of low d32s order = sample_move_ds_s32s fl (plain order)

  abbrev pub from_32s : ℕ → F
  from_32s w = narrow (
      widen
        (mul (of_int (int_value w)) (narrow (div_d (of_int_d (pos 1)) (of_int_d (pos max_32))))))

  abbrev pub from_32 : ℕ → F
  from_32 w =
      narrow (mul_d (of_int_d (int_value w)) (div_d (of_int_d (pos 1)) (of_int_d (pos max_32))))

  -- The sample that the integer of a sample stands for.
  unfoldable pub value_of : Format → F → F
  value_of d16 s = mul (of_int (int_value (float_16 fl s))) (scaling_16 fl)
  value_of d16s s = mul (of_int (int_value (float_16 fl s))) (scaling_16 fl)
  value_of d24 s = mul (of_int (int_value (float_24 fl s))) (scaling_24f fl)
  value_of d24s s = mul (of_int (int_value (float_24 fl s))) (scaling_24 fl)
  value_of d32u24 s = mul (of_int (int_value (float_24 fl s))) (scaling_24 fl)
  value_of d32u24s s = mul (of_int (int_value (float_24 fl s))) (scaling_24 fl)
  value_of d32l24 s = mul (of_int (int_value (float_24 fl s))) (scaling_24 fl)
  value_of d32l24s s = mul (of_int (int_value (float_24 fl s))) (scaling_24 fl)
  value_of d32 s = narrow (
      mul_d (of_int_d (int_value (float_32 fl s)))
        (div_d (of_int_d (pos 1)) (of_int_d (pos max_32))))
  value_of d32s s = narrow (
      widen (
        mul (of_int (int_value (float_32 fl s)))
          (narrow (div_d (of_int_d (pos 1)) (of_int_d (pos max_32))))))

  unfoldable pub conv_of : Format → ByteOrder → F → List ℕ
  conv_of d16 order s = bytes_16 order (float_16 fl s)
  conv_of d16s order s = bytes_16s order (float_16 fl s)
  conv_of d24 order s = bytes_24 order (float_24 fl s)
  conv_of d24s order s = bytes_24s order (float_24 fl s)
  conv_of d32u24 order s = word_bytes order (float_24u32 fl s)
  conv_of d32u24s order s = bytes_32s order (float_24u32 fl s)
  conv_of d32l24 order s = word_bytes order (float_24l32 fl s)
  conv_of d32l24s order s = bytes_32s order (float_24l32 fl s)
  conv_of d32 order s = word_bytes order (float_32 fl s)
  conv_of d32s order s = bytes_32s order (float_32 fl s)

  unfoldable pub dec_of : ℕ → Format → ByteOrder → List ℕ → F
  dec_of low d16 order bs = from_16 fl (host_word order bs)
  dec_of low d16s order bs = from_16 fl (swapped_word order bs)
  dec_of low d24 order bs = from_24_above fl low (host_word order bs)
  dec_of low d24s order bs = from_24 fl (sign_24 (swapped_word order bs))
  dec_of low d32u24 order bs = from_upper_24 fl (host_word order bs)
  dec_of low d32u24s order bs = from_upper_24 fl (swapped_word order bs)
  dec_of low d32l24 order bs = from_24 fl (sign_24 (host_word order bs))
  dec_of low d32l24s order bs = from_24 fl (swapped_word order bs)
  dec_of low d32 order bs = from_32 (host_word order bs)
  dec_of low d32s order bs = from_32s (swapped_word order bs)

  pub writer_of-write_loop :
      (f : Format) (order : ByteOrder) (n : ℕ) (dst : List ℕ) (at : ℕ) (src : List F) (skip : ℕ)
      → writer_of f order n dst at src skip ≡ write_loop (conv_of f order) n dst at src skip
  unfolding writer_of conv_of sample_move_d16_ss sample_move_d16_sss sample_move_d24_ss
      sample_move_d24_sss sample_move_d32u24_ss sample_move_d32u24_sss sample_move_d32l24_ss
      sample_move_d32l24_sss sample_move_d32_ss sample_move_d32_sss
  writer_of-write_loop d16 order n dst at src skip = refl
  writer_of-write_loop d16s order n dst at src skip = refl
  writer_of-write_loop d24 order n dst at src skip = refl
  writer_of-write_loop d24s order n dst at src skip = refl
  writer_of-write_loop d32u24 order n dst at src skip = refl
  writer_of-write_loop d32u24s order n dst at src skip = refl
  writer_of-write_loop d32l24 order n dst at src skip = refl
  writer_of-write_loop d32l24s order n dst at src skip = refl
  writer_of-write_loop d32 order n dst at src skip = refl
  writer_of-write_loop d32s order n dst at src skip = refl

  pub reader_of-read_loop :
      (low : ℕ) (f : Format) (order : ByteOrder) (n : ℕ) (src : List ℕ) (at skip : ℕ)
      → reader_of low f order n src at skip
        ≡ read_loop (size_of f) (dec_of low f order) n src at skip
  unfolding reader_of dec_of sample_move_ds_s16 sample_move_ds_s16s sample_move_ds_s24
      sample_move_ds_s24s sample_move_ds_s32u24 sample_move_ds_s32u24s sample_move_ds_s32l24
      sample_move_ds_s32l24s sample_move_ds_s32 sample_move_ds_s32s
  reader_of-read_loop low d16 order n src at skip = refl
  reader_of-read_loop low d16s order n src at skip = refl
  reader_of-read_loop low d24 order n src at skip = refl
  reader_of-read_loop low d24s order n src at skip = refl
  reader_of-read_loop low d32u24 order n src at skip = refl
  reader_of-read_loop low d32u24s order n src at skip = refl
  reader_of-read_loop low d32l24 order n src at skip = refl
  reader_of-read_loop low d32l24s order n src at skip = refl
  reader_of-read_loop low d32 order n src at skip = refl
  reader_of-read_loop low d32s order n src at skip = refl

  pub conv_of-length :
      (f : Format) (order : ByteOrder) (s : F) → length (conv_of f order s) ≡ size_of f
  unfolding conv_of bytes_32s bytes_24s bytes_24 bytes_16s bytes_16 word_bytes net32
  conv_of-length d16 little s = refl
  conv_of-length d16 big s = refl
  conv_of-length d16s little s = refl
  conv_of-length d16s big s = refl
  conv_of-length d24 little s = refl
  conv_of-length d24 big s = refl
  conv_of-length d24s little s = refl
  conv_of-length d24s big s = refl
  conv_of-length d32u24 little s = refl
  conv_of-length d32u24 big s = refl
  conv_of-length d32u24s little s = refl
  conv_of-length d32u24s big s = refl
  conv_of-length d32l24 little s = refl
  conv_of-length d32l24 big s = refl
  conv_of-length d32l24s little s = refl
  conv_of-length d32l24s big s = refl
  conv_of-length d32 little s = refl
  conv_of-length d32 big s = refl
  conv_of-length d32s little s = refl
  conv_of-length d32s big s = refl

module _ (fl : Floats) (low : ℕ) (laws : FloatLaws fl) (small : low < 256) where
  open fl use {F, mul, of_int}

  float_16_lt : (s : F) → float_16 fl s < 2 ^ 32
  float_16_lt s = rw (float_16-clamped fl laws s) (int_bits_lt (clamped fl laws max_16 s))

  float_24_lt : (s : F) → float_24 fl s < 2 ^ 32
  float_24_lt s = rw (float_24-clamped fl laws s) (int_bits_lt (clamped fl laws max_24 s))

  float_32_lt : (s : F) → float_32 fl s < 2 ^ 32
  unfolding float_32
  float_32_lt s = int_bits_lt _

  float_16-Narrow : (s : F) → IsNumber fl s → Narrow (2 ^ 15) (float_16 fl s)
  float_16-Narrow s num =
      Within-Narrow max_16 (float_16 fl s) (omega arith) (float_16_lt s)
        (let (small, scaled, wide, low) = float_16-Within fl laws s num in small)

  float_24-Narrow : (s : F) → IsNumber fl s → Narrow (2 ^ 23) (float_24 fl s)
  float_24-Narrow s num =
      Within-Narrow max_24 (float_24 fl s) (omega arith) (float_24_lt s)
        (let (small, scaled, wide, low) = float_16-Within fl laws s num in wide)

  float_24u32_lt : (s : F) → float_24u32 fl s < 2 ^ 32
  float_24u32_lt s = rw (float_24u32-shift_up fl laws s) (omega arith)

  short : (s : F) → IsNumber fl s → from_16 fl (float_16 fl s % 2 ^ 16) ≡ value_of fl d16 s
  unfolding from_16 value_of
  short s num =
      ap (λ v. mul (of_int v) (scaling_16 fl))
        (short_value_low (float_16 fl s) (float_16-Narrow s num))

  upper : (s : F) → IsNumber fl s → from_upper_24 fl (float_24u32 fl s) ≡ value_of fl d32u24 s
  unfolding from_upper_24 value_of
  upper s num =
      ap (λ w. mul (of_int (int_value w)) (scaling_24 fl))
        (ap shift_down (float_24u32-shift_up fl laws s)
          ∙ shift_down-shift_up (float_24 fl s) (float_24-Narrow s num))

  -- The bytes of a sample are converted back to what its integer stands for.
  pub dec_of-conv_of :
      (f : Format) (order : ByteOrder) (s : F)
      → IsNumber fl s
      → dec_of fl low f order (conv_of fl f order s) ≡ value_of fl f s
  unfolding dec_of conv_of value_of from_24 from_24_above float_24l32 float_24
  dec_of-conv_of d16 order s num =
      ap (from_16 fl) (host_word-bytes_16 order (float_16 fl s)) ∙ short s num
  dec_of-conv_of d16s order s num =
      ap (from_16 fl) (swapped_word-bytes_16s order (float_16 fl s)) ∙ short s num
  dec_of-conv_of d24 order s num =
      ap (from_24_above fl low) (host_word-bytes_24 order (float_24 fl s))
      ∙ ap (λ w. mul (of_int (int_value w)) (scaling_24f fl))
          (shift_down_above low (float_24 fl s) small (float_24-Narrow s num))
  dec_of-conv_of d24s order s num =
      ap (λ w. from_24 fl (sign_24 w)) (swapped_word-bytes_24s order (float_24 fl s))
      ∙ ap (from_24 fl) (sign_24_low (float_24 fl s) (float_24-Narrow s num))
  dec_of-conv_of d32u24 order s num =
      ap (from_upper_24 fl) (host_word-word_bytes order (float_24u32 fl s) (float_24u32_lt s))
      ∙ upper s num
  dec_of-conv_of d32u24s order s num =
      ap (from_upper_24 fl) (swapped_word-bytes_32s order (float_24u32 fl s) (float_24u32_lt s))
      ∙ upper s num
  dec_of-conv_of d32l24 order s num =
      ap (λ w. from_24 fl (sign_24 w)) (host_word-word_bytes order (float_24 fl s) (float_24_lt s))
      ∙ ap (from_24 fl) (sign_24_whole (float_24 fl s) (float_24-Narrow s num))
  dec_of-conv_of d32l24s order s num =
      ap (from_24 fl) (swapped_word-bytes_32s order (float_24 fl s) (float_24_lt s))
  dec_of-conv_of d32 order s num =
      ap (from_32 fl) (host_word-word_bytes order (float_32 fl s) (float_32_lt s))
  dec_of-conv_of d32s order s num =
      ap (from_32s fl) (swapped_word-bytes_32s order (float_32 fl s) (float_32_lt s))
