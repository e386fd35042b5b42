-- ===== src/Memops/Out.antt =====
-- The functions of common/memops.c that convert samples to the integers of an interface.
pub mod Dither
use jack_example_tools.Base.{
  ℕ, ◌+◌, ◌*◌, ◌/◌, ◌%◌, ◌^◌, Option, none, some, List, [], ◌∷◌, take, drop, pos, negsuc,
}
use jack_example_tools.Bytes.{ByteOrder, little, big, net32, word_bytes}
use jack_example_tools.Memops.Float.{
  Floats, int_bits, shift_up, max_24, float_16, float_24, float_24l32, float_24u32, float_32,
  clip_sse, float_24_sse, float_24_neon, float_16_neon,
}
use jack_example_tools.Memops.Loops.{
  Target, plain, sse2, sun, neon, order_of, write_loop, write_unrolled, store_lanes,
}

-- The bytes of an integer in the order opposite to the host's, and in the host's.
unfoldable pub bytes_32s : ByteOrder → ℕ → List ℕ
bytes_32s little z = net32 z
bytes_32s big z = word_bytes little z

unfoldable pub bytes_24s : ByteOrder → ℕ → List ℕ
bytes_24s little z = (z / 2 ^ 16 % 256) ∷ (z / 2 ^ 8 % 256) ∷ (z % 256) ∷ []
bytes_24s big z = (z % 256) ∷ (z / 2 ^ 8 % 256) ∷ (z / 2 ^ 16 % 256) ∷ []

unfoldable pub bytes_24 : ByteOrder → ℕ → List ℕ
unfolding word_bytes
bytes_24 little z = take 3 (word_bytes little z)
bytes_24 big z = take 3 (drop 1 (word_bytes big z))

unfoldable pub bytes_16s : ByteOrder → ℕ → List ℕ
bytes_16s little z = (z / 2 ^ 8 % 256) ∷ (z % 256) ∷ []
bytes_16s big z = (z % 256) ∷ (z / 2 ^ 8 % 256) ∷ []

unfoldable pub bytes_16 : ByteOrder → ℕ → List ℕ
bytes_16 little z = (z % 256) ∷ (z / 2 ^ 8 % 256) ∷ []
bytes_16 big z = (z / 2 ^ 8 % 256) ∷ (z % 256) ∷ []

module _ (fl : Floats) where
  open fl use {F, mul, sub, of_int, truncate}

  -- The type of these functions: the number of samples, the destination, the offset of the channel
  -- in it, the samples, and the skip.
  abbrev pub Writer : Type 0
  Writer = ℕ → List ℕ → ℕ → List F → ℕ → Option (List ℕ)

  unfoldable pub sample_move_d32_sss : Target → Writer
  sample_move_d32_sss t nsamples dst at src skip =
      write_loop (λ s. bytes_32s (order_of t) (float_32 fl s)) nsamples dst at src skip

  unfoldable pub sample_move_d32_ss : Target → Writer
  sample_move_d32_ss t nsamples dst at src skip =
      write_loop (λ s. word_bytes (order_of t) (float_32 fl s)) nsamples dst at src skip

  unfoldable pub sample_move_d32u24_sss : Target → Writer
  sample_move_d32u24_sss neon nsamples dst at src skip =
      write_unrolled (store_lanes 4 (λ s. bytes_32s little (shift_up (float_24_neon fl s))) skip)
        (λ s. bytes_32s little (float_24u32 fl s)) nsamples dst at src skip
  sample_move_d32u24_sss t nsamples dst at src skip =
      write_loop (λ s. bytes_32s (order_of t) (float_24u32 fl s)) nsamples dst at src skip

  -- The truncated 24-bit integer of a lane, clipped behind the scaling.
  unfoldable pub scaled_clip_sse : F → ℕ
  scaled_clip_sse s =
      let int_max = of_int (pos max_24) in
      let int_min = sub (of_int (pos 0)) int_max in
      int_bits (truncate (clip_sse fl (mul s int_max) int_min int_max))

  -- With SSE2 on Solaris neither of the two loops is compiled.
  unfoldable pub sample_move_d32u24_ss : Target → Writer
  sample_move_d32u24_ss sse2 nsamples dst at src skip =
      write_unrolled
        (λ dst at src.
          write_loop (λ s. word_bytes little (shift_up (scaled_clip_sse s))) 4 dst at src skip)
        (λ s. word_bytes little (shift_up (scaled_clip_sse s))) nsamples dst at src skip
  sample_move_d32u24_ss sun nsamples dst at src skip = some dst
  sample_move_d32u24_ss neon nsamples dst at src skip =
      write_unrolled (store_lanes 4 (λ s. word_bytes little (shift_up (float_24_neon fl s))) skip)
        (λ s. word_bytes little (float_24u32 fl s)) nsamples dst at src skip
  sample_move_d32u24_ss (plain order) nsamples dst at src skip =
      write_loop (λ s. word_bytes order (float_24u32 fl s)) nsamples dst at src skip

  unfoldable pub sample_move_d32l24_sss : Target → Writer
  sample_move_d32l24_sss neon nsamples dst at src skip =
      write_unrolled (store_lanes 4 (λ s. bytes_32s little (float_24_neon fl s)) skip)
        (λ s. bytes_32s little (float_24l32 fl s)) nsamples dst at src skip
  sample_move_d32l24_sss t nsamples dst at src skip =
      write_loop (λ s. bytes_32s (order_of t) (float_24l32 fl s)) nsamples dst at src skip

  -- With SSE2 the last samples are shifted, as in `sample_move_d32u24_sS`, but the others are not.
  unfoldable pub sample_move_d32l24_ss : Target → Writer
  sample_move_d32l24_ss sse2 nsamples dst at src skip =
      write_unrolled
        (λ dst at src. write_loop (λ s. word_bytes little (scaled_clip_sse s)) 4 dst at src skip)
        (λ s. word_bytes little (shift_up (scaled_clip_sse s))) nsamples dst at src skip
  sample_move_d32l24_ss sun nsamples dst at src skip = some dst
  sample_move_d32l24_ss neon nsamples dst at src skip =
      write_unrolled (store_lanes 4 (λ s. word_bytes little (float_24_neon fl s)) skip)
        (λ s. word_bytes little (float_24l32 fl s)) nsamples dst at src skip
  sample_move_d32l24_ss (plain order) nsamples dst at src skip =
      write_loop (λ s. word_bytes order (float_24l32 fl s)) nsamples dst at src skip

  unfoldable pub sample_move_d24_sss : Target → Writer
  sample_move_d24_sss neon nsamples dst at src skip =
      write_unrolled
        (λ dst at src.
          write_loop (λ s. take 3 (drop 1 (bytes_32s little (float_24_neon fl s)))) 4 dst at src
            skip)
        (λ s. bytes_24s little (float_24 fl s)) nsamples dst at src skip
  sample_move_d24_sss t nsamples dst at src skip =
      write_loop (λ s. bytes_24s (order_of t) (float_24 fl s)) nsamples dst at src skip

  unfoldable pub sample_move_d24_ss : Target → Writer
  sample_move_d24_ss sse2 nsamples dst at src skip =
      write_unrolled
        (λ dst at src. write_loop (λ s. bytes_24 little (float_24_sse fl s)) 4 dst at src skip)
        (λ s. bytes_24 little (float_24 fl s)) nsamples dst at src skip
  sample_move_d24_ss neon nsamples dst at src skip =
      write_unrolled
        (λ dst at src. write_loop (λ s. bytes_24 little (float_24_neon fl s)) 4 dst at src skip)
        (λ s. bytes_24 little (float_24 fl s)) nsamples dst at src skip
  sample_move_d24_ss t nsamples dst at src skip =
      write_loop (λ s. bytes_24 (order_of t) (float_24 fl s)) nsamples dst at src skip

  unfoldable pub sample_move_d16_sss : Target → Writer
  sample_move_d16_sss neon nsamples dst at src skip =
      write_unrolled (store_lanes 2 (λ s. bytes_16s little (float_16_neon fl s)) skip)
        (λ s. bytes_16s little (float_16 fl s)) nsamples dst at src skip
  sample_move_d16_sss t nsamples dst at src skip =
      write_loop (λ s. bytes_16s (order_of t) (float_16 fl s)) nsamples dst at src skip

  unfoldable pub sample_move_d16_ss : Target → Writer
  sample_move_d16_ss neon nsamples dst at src skip =
      write_unrolled (store_lanes 2 (λ s. bytes_16 little (float_16_neon fl s)) skip)
        (λ s. bytes_16 little (float_16 fl s)) nsamples dst at src skip
  sample_move_d16_ss t nsamples dst at src skip =
      write_loop (λ s. bytes_16 (order_of t) (float_16 fl s)) nsamples dst at src skip
