-- ===== src/Memops/RoundTrip.antt =====
-- The writers and the readers of common/memops.c for one format belong together: samples that are
-- written to a channel are read back, and the other channels are left alone.
pub mod Formats
use jack_example_tools.Base.{
  ℕ, zero, suc, ◌+◌, ◌*◌, ◌^◌, ◌≤◌, ◌<◌, ◌≡◌, refl, sym, ap, ap₂, ◌∙◌, arith, Option, some, List,
  [], ◌∷◌, map, length, take, get_elem?, All,
}
use jack_example_tools.Bytes.{ByteOrder, little, big, net32, word_bytes}
use jack_example_tools.Memops.Float.{
  Floats, float_16, float_24, float_24l32, float_24u32, float_32, shift_up, max_16, max_24,
  int_value,
}
use jack_example_tools.Memops.Loops.{plain, write_loop, read_loop}
use jack_example_tools.Memops.Loops.Strided.{
  Written, Outside, Apart, write_loop-Written, read_loop-Apart,
}
use jack_example_tools.Memops.Out.{
  bytes_32s, bytes_24s, bytes_24, bytes_16s, bytes_16, sample_move_d32_sss, sample_move_d32_ss,
  sample_move_d32u24_sss, sample_move_d32u24_ss, sample_move_d32l24_sss, sample_move_d32l24_ss,
  sample_move_d24_sss, sample_move_d24_ss, sample_move_d16_sss, sample_move_d16_ss,
}
use jack_example_tools.Memops.In.{
  host_word, swapped_word, sign_24, short_value, from_upper_24, from_24, from_24_above, from_16,
  sample_move_ds_s32u24s, sample_move_ds_s32u24, sample_move_ds_s32s, sample_move_ds_s32,
  sample_move_ds_s32l24s, sample_move_ds_s32l24, sample_move_ds_s24s, sample_move_ds_s24,
  sample_move_ds_s16s, sample_move_ds_s16,
}
use jack_example_tools.Memops.Range.{
  FloatLaws, IsNumber, Within, float_16-Within, float_24u32-shift_up, float_24-float_24l32,
}
use jack_example_tools.Memops.RoundTrip.Formats.{
  Format, size_of, writer_of, reader_of, value_of, conv_of, dec_of, writer_of-write_loop,
  reader_of-read_loop, conv_of-length, dec_of-conv_of,
}

map_congr {ℓ κ ι} :
    {A : Type ℓ} {B : Type κ} (P : A → Type ι) (f g : A → B)
    → ((a : A) → P a → f a ≡ g a)
    → (n : ℕ) (xs : List A) → All P xs
    → map f (take n xs) ≡ map g (take n xs)
map_congr P f g same zero xs h = refl
map_congr P f g same (suc n) [] h = refl
map_congr P f g same (suc n) (x ∷ xs) (p, h) = ap₂ (◌∷◌) (same x p) (map_congr P f g same n xs h)

module _ (fl : Floats) (order : ByteOrder) (f : Format) (n : ℕ) (dst : List ℕ) (at : ℕ)
    (src : List fl.F) (skip : ℕ) where
  writer-Written :
      (wide : size_of f ≤ skip)
      → n ≤ length src
      → at + n * skip + size_of f ≤ length dst + skip
      → (dst' : List ℕ) × (writer_of fl f order n dst at src skip ≡ some dst')
        × Written
            (size_of f)
            skip
            wide
            (conv_of fl f order)
            (conv_of-length fl f order)
            n
            at
            src
            dst
            dst'
  writer-Written wide enough room =
      let (dst', ran, w) =
        write_loop-Written (size_of f) skip wide (conv_of fl f order) (conv_of-length fl f order) n
          dst at src enough room in
      (dst', writer_of-write_loop fl f order n dst at src skip ∙ ran, w)

  -- On a host without a vector unit, of either byte order, and in each of the ten formats: where the
  -- samples are numbers and the channel lies inside the memory, they are written, the length of the
  -- memory stays, and the reader of the format gives what its integer stands for, for each sample in
  -- order.
  pub read-write :
      (low : ℕ)
      → FloatLaws fl
      → low < 256
      → size_of f ≤ skip
      → n ≤ length src
      → at + n * skip + size_of f ≤ length dst + skip
      → All (IsNumber fl) src
      → (dst' : List ℕ) × (writer_of fl f order n dst at src skip ≡ some dst')
        × (length dst' ≡ length dst)
        × (reader_of fl low f order n dst' at skip ≡ some (map (value_of fl f) (take n src)))
  read-write low laws h wide enough room num =
      let (dst', ran, w) = writer-Written wide enough room in
      (
        dst',
        ran,
        w.same_length,
        reader_of-read_loop fl low f order n dst' at skip
            ∙ w.read_back (dec_of fl low f order)
            ∙ ap some (
                map_congr (IsNumber fl) (λ s. dec_of fl low f order (conv_of fl f order s))
                  (value_of fl f) (dec_of-conv_of fl low laws h f order) n src num),
      )

  -- On a host without a vector unit, of either byte order, and in each of the ten formats: where the
  -- channel lies inside the memory, whatever the samples are, they are written, and every other channel,
  -- of the same skip and at an offset apart from this one, reads the same afterwards as before, in any
  -- of the ten formats and for any number of samples.
  pub write-elsewhere :
      (low : ℕ) (f' : Format) (m at' : ℕ)
      → size_of f ≤ skip
      → n ≤ length src
      → at + n * skip + size_of f ≤ length dst + skip
      → Apart (size_of f) skip (size_of f') at at'
      → (dst' : List ℕ) × (writer_of fl f order n dst at src skip ≡ some dst')
        × (reader_of fl low f' order m dst' at' skip ≡ reader_of fl low f' order m dst at' skip)
  write-elsewhere low f' m at' wide enough room apart =
      let (dst', ran, w) = writer-Written wide enough room in
      (
        dst',
        ran,
        reader_of-read_loop fl low f' order m dst' at' skip
            ∙ read_loop-Apart (size_of f) skip (dec_of fl low f' order) (size_of f') n m at at' dst'
                dst w.same_length w.outside apart
            ∙ sym (reader_of-read_loop fl low f' order m dst at' skip),
      )
