-- ===== src/Memops/Out/Dither.antt =====
-- The conversions of common/memops.c to 16 bits with dither: a noise is added to each sample, and in
-- the shaped variant the errors of the samples before it are filtered and subtracted.
pub mod Range
use jack_example_tools.Base.{
  ℕ, zero, suc, ◌+◌, ◌*◌, ◌%◌, ◌^◌, Bool, true, false, Option, none, some, List, [], ◌∷◌, ◌>>=◌,
  get_elem?, ℤ, pos, negsuc, ltb, if◌then◌else◌,
}
use jack_example_tools.Bytes.{ByteOrder, store}
use jack_example_tools.Machine.{sub_u32}
use jack_example_tools.Memops.Float.{Floats, max_16, float_16_scaled}
use jack_example_tools.Memops.Loops.{put}
use jack_example_tools.Memops.In.{short_value}
use jack_example_tools.Memops.Out.{bytes_16, bytes_16s}

-- A linear congruential generator on `unsigned int`.
unfoldable pub fast_rand : ℕ → ℕ
fast_rand seed = (seed * 196314165 + 907633515) % 2 ^ 32

-- `UINT_MAX`
abbrev pub uint_max : ℕ
uint_max = 4294967295

-- `DITHER_BUF_MASK`; `& 7` of an `unsigned int` is the remainder by 8.
abbrev pub masked : ℕ → ℕ
masked i = i % 8

module _ (fl : Floats) where
  open fl use {F, add, sub, mul, div, of_int, literal}

  -- `dither_state_t`, without its `depth`; the generator's `seed` is shared by all channels.
  pub record Dither : Type 0 where
    pub seed : ℕ
    pub rm1 : F
    pub idx : ℕ
    pub e : List F

  -- A sample at the scale of 16 bits.
  abbrev pub scaled_16 : F → F
  scaled_16 s = mul s (of_int (pos max_16))

  -- One rectangular noise, and a triangular one from two calls of the generator.
  unfoldable pub rect_noise : F → ℕ → F
  rect_noise x r = sub (add x (div (of_int (pos r)) (of_int (pos uint_max)))) (literal 5 1)

  unfoldable pub tri_noise : ℕ → ℕ → F
  tri_noise r r' =
      sub (div (add (of_int (pos r)) (of_int (pos r'))) (of_int (pos uint_max))) (of_int (pos 1))

  unfoldable pub rect_sample : Dither → F → Dither × ℕ
  rect_sample d s =
      let seed = fast_rand d.seed in
      (record d { seed = seed }, float_16_scaled fl (rect_noise (scaled_16 s) seed))

  -- The noise is added before 1 is subtracted, from left to right.
  unfoldable pub tri_sample : Dither → F → Dither × ℕ
  tri_sample d s =
      let r = fast_rand d.seed in
      let r' = fast_rand r in
      let noise = div (add (of_int (pos r)) (of_int (pos r'))) (of_int (pos uint_max)) in
      (record d { seed = r' }, float_16_scaled fl (sub (add (scaled_16 s) noise) (of_int (pos 1))))

  -- The error filter at the index `idx`; `none` is a read outside the array `e`.
  unfoldable pub filtered : List F → ℕ → F → Option F
  filtered e idx x = do
    e0 ← get_elem? e idx
    e1 ← get_elem? e (masked (sub_u32 idx 1))
    e2 ← get_elem? e (masked (sub_u32 idx 2))
    e3 ← get_elem? e (masked (sub_u32 idx 3))
    e4 ← get_elem? e (masked (sub_u32 idx 4))
    some (
        sub
          (add
            (sub (add (sub x (mul e0 (literal 2033 3))) (mul e1 (literal 2165 3)))
              (mul e2 (literal 1959 3)))
            (mul e3 (literal 1590 3)))
          (mul e4 (literal 6149 4)))

  -- One sample of the shaped dither. `swapped` tells the variant for the opposite byte order, which
  -- stores another error than the variant for the host's.
  unfoldable pub shaped_sample : Bool → Dither → F → Option (Dither × ℕ)
  shaped_sample swapped d s = do
    let r = fast_rand d.seed
    let r' = fast_rand r
    xe ← filtered d.e d.idx (scaled_16 s)
    let noise = tri_noise r r'
    let xp = sub (add xe noise) d.rm1
    let z = float_16_scaled fl xp
    let idx = masked (d.idx + 1)
    let error = if swapped then sub xp xe else sub (of_int (short_value (z % 2 ^ 16))) xe
    e ← store d.e idx error
    some (record { seed = r'; rm1 = noise; idx = idx; e = e }, z)

  -- The loop over the samples, with the state of the dither.
  unfoldable pub dither_loop :
      (Dither → F → Option (Dither × List ℕ))
      → ℕ
      → Dither
      → List ℕ
      → ℕ
      → List F
      → ℕ
      → Option (Dither × List ℕ)
  dither_loop conv zero d dst at src skip = some (d, dst)
  dither_loop conv (suc n) d dst at [] skip = none
  dither_loop conv (suc n) d dst at (s ∷ src) skip = do
    r ← conv d s
    dst ← put dst at r.1
    dither_loop conv n r.0 dst (at + skip) src skip

  -- The type of these functions.
  abbrev pub Ditherer : Type 0
  Ditherer = ℕ → Dither → List ℕ → ℕ → List F → ℕ → Option (Dither × List ℕ)

  unfoldable pub sample_move_dither_rect_d16_sss : ByteOrder → Ditherer
  sample_move_dither_rect_d16_sss order nsamples d dst at src skip =
      dither_loop (λ d s. let r = rect_sample d s in some (r.0, bytes_16s order r.1)) nsamples d dst
        at src skip

  unfoldable pub sample_move_dither_rect_d16_ss : ByteOrder → Ditherer
  sample_move_dither_rect_d16_ss order nsamples d dst at src skip =
      dither_loop (λ d s. let r = rect_sample d s in some (r.0, bytes_16 order r.1)) nsamples d dst
        at src skip

  unfoldable pub sample_move_dither_tri_d16_sss : ByteOrder → Ditherer
  sample_move_dither_tri_d16_sss order nsamples d dst at src skip =
      dither_loop (λ d s. let r = tri_sample d s in some (r.0, bytes_16s order r.1)) nsamples d dst
        at src skip

  unfoldable pub sample_move_dither_tri_d16_ss : ByteOrder → Ditherer
  sample_move_dither_tri_d16_ss order nsamples d dst at src skip =
      dither_loop (λ d s. let r = tri_sample d s in some (r.0, bytes_16 order r.1)) nsamples d dst
        at src skip

  unfoldable pub sample_move_dither_shaped_d16_sss : ByteOrder → Ditherer
  sample_move_dither_shaped_d16_sss order nsamples d dst at src skip =
      dither_loop (λ d s. shaped_sample true d s >>= λ r. some (r.0, bytes_16s order r.1)) nsamples
        d dst at src skip

  unfoldable pub sample_move_dither_shaped_d16_ss : ByteOrder → Ditherer
  sample_move_dither_shaped_d16_ss order nsamples d dst at src skip =
      dither_loop (λ d s. shaped_sample false d s >>= λ r. some (r.0, bytes_16 order r.1)) nsamples
        d dst at src skip
