-- ===== src/Memops/Tests.antt =====
-- common/memops.c at concrete samples: the integers stand for the floating-point numbers.
use jack_example_tools.Base.{
  ℕ, ◌≡◌, refl, inl, inr, arith, true, ℤ, pos, negsuc, some, none, List, [], ◌∷◌, map, replicate,
  length, take, get_elem?,
}
use jack_example_tools.Bytes.{little, big}
use jack_example_tools.Memops.Float.{
  int_value, float_16, float_16_scaled, float_24, float_24l32, max_16, max_24,
}
use jack_example_tools.Memops.Loops.{plain, sse2, neon, read_loop}
use jack_example_tools.Memops.Out.{sample_move_d24_ss}
use jack_example_tools.Memops.Out.Dither.{Dither}
use jack_example_tools.Memops.Out.Dither.Range.{shaped, ditherer_of, IsDither, ditherer-IsDither}
use jack_example_tools.Memops.In.{sample_move_ds_s16}
use jack_example_tools.Memops.Interleave.{memset_interleave}
use jack_example_tools.Memops.Interleave.Copied.{d24, memcpy_interleave, memcpy_interleave-copied}
use jack_example_tools.Memops.Interleave.Filled.{memset_interleave_zero}
use jack_example_tools.Memops.Range.{Within, float_16-Within}
use jack_example_tools.Memops.RoundTrip.{read-write, write-elsewhere}
use jack_example_tools.Memops.RoundTrip.Formats.{d24s, d16, writer_of, reader_of, value_of}
use jack_example_tools.Memops.Vector.{sse2-plain}
use jack_example_tools.Memops.Vector.Readers.{neon_32u24s, vector_of, plain_of, vector-plain}
use jack_example_tools.Memops.Vector.OverRead.{s16_over_read}
use jack_example_tools.Memops.Integers.{integers, laws}

-- Two channels, of which the second is written.
abbrev memory : List ℕ
memory = 1 ∷ 2 ∷ 3 ∷ 4 ∷ 5 ∷ 6 ∷ 7 ∷ 8 ∷ 9 ∷ 10 ∷ 11 ∷ 12 ∷ []

abbrev samples : List ℤ
samples = negsuc 0 ∷ pos 3 ∷ []

float_16-Within_example :
    Within max_16 (int_value (float_16 integers (pos 3)))
    × Within max_16 (int_value (float_16_scaled integers (pos 3)))
    × Within max_24 (int_value (float_24 integers (pos 3)))
    × Within max_24 (int_value (float_24l32 integers (pos 3)))
float_16-Within_example = float_16-Within integers laws (pos 3) refl

read-write_example :
    (dst' : List ℕ) × (writer_of integers d24s big 2 memory 3 samples 6 ≡ some dst')
    × (length dst' ≡ length memory)
    × (reader_of integers 7 d24s big 2 dst' 3 6
        ≡ some (map (value_of integers d24s) (take 2 samples)))
read-write_example =
    read-write integers big d24s 2 memory 3 samples 6 7 laws (omega arith) (omega arith)
      (omega arith) (omega arith) (refl, (refl, _))

write-elsewhere_example :
    (dst' : List ℕ) × (writer_of integers d24s big 2 memory 3 samples 6 ≡ some dst')
    × (reader_of integers 7 d16 big 2 dst' 0 6 ≡ reader_of integers 7 d16 big 2 memory 0 6)
write-elsewhere_example =
    write-elsewhere integers big d24s 2 memory 3 samples 6 7 d16 2 0 (omega arith) (omega arith)
      (omega arith) (inr (omega arith, omega arith))

abbrev five : List ℤ
five = pos 0 ∷ pos 1 ∷ negsuc 0 ∷ pos 7 ∷ negsuc 4 ∷ []

sse2-plain_example :
    sample_move_d24_ss integers sse2 5 (replicate 20 0) 1 five 4
    ≡ sample_move_d24_ss integers (plain little) 5 (replicate 20 0) 1 five 4
sse2-plain_example =
    sse2-plain integers laws 5 (replicate 20 0) 1 five 4 (refl, (refl, (refl, (refl, (refl, _)))))

-- Two channels of five samples, read with NEON.
vector-plain_example :
    vector_of integers 3 neon_32u24s 5 (replicate 40 9) 0 8
    ≡ plain_of integers 3 neon_32u24s 5 (replicate 40 9) 0 8
vector-plain_example = vector-plain integers 3 neon_32u24s 5 (replicate 40 9) 0 8 (λ e. omega arith)

s16_over_read_example :
    (sample_move_ds_s16 integers neon 4 (replicate 16 9) 2 4 ≡ none)
    × ((xs : List ℤ) × (sample_move_ds_s16 integers (plain little) 4 (replicate 16 9) 2 4
          ≡ some xs))
s16_over_read_example = s16_over_read integers 0 (replicate 16 9) 2 (omega arith) (omega arith)

abbrev dither : Dither integers
dither = record { seed = 22222; rm1 = pos 0; idx = 7; e = replicate 8 (pos 0) }

ditherer-IsDither_example :
    (d' : Dither integers) × (dst' : List ℕ) × (ditherer_of integers shaped true little 2 dither
        memory 3 samples 6
      ≡ some (d', dst'))
    × IsDither integers d'
    × (length dst' ≡ length memory)
    × (get_elem? dst' 7 ≡ get_elem? memory 7)
ditherer-IsDither_example =
    ditherer-IsDither integers shaped true little 2 dither memory 3 samples 6
      (refl, omega arith, omega arith) (omega arith) (omega arith) (omega arith) 7
      (inr (omega arith), (inl (omega arith), _))

memcpy_interleave-copied_example :
    (dst' : List ℕ) × (memcpy_interleave d24 9 memory 3 (replicate 8 50) 1 6 6 4 ≡ some dst')
    × (length dst' ≡ length memory)
    × (read_loop 3 (λ bytes. bytes) 2 dst' 3 6
        ≡ read_loop 3 (λ bytes. bytes) 2 (replicate 8 50) 1 4)
    × (get_elem? dst' 7 ≡ get_elem? memory 7)
memcpy_interleave-copied_example =
    memcpy_interleave-copied d24 9 2 memory 3 (replicate 8 50) 1 6 4 (omega arith) (omega arith)
      (omega arith) (omega arith) (omega arith) 7 (inr (omega arith), (inl (omega arith), _))

memset_interleave_zero_example :
    (dst' : List ℕ) × (memset_interleave little 9 memory 3 0 6 3 6 ≡ some dst')
    × (length dst' ≡ length memory)
    × (read_loop 3 (λ bytes. bytes) 2 dst' 3 6 ≡ some (replicate 2 (replicate 3 0)))
    × (get_elem? dst' 7 ≡ get_elem? memory 7)
memset_interleave_zero_example =
    memset_interleave_zero little 9 2 memory 3 3 6 (omega arith) (omega arith) (omega arith)
      (omega arith) (omega arith) 7 (inr (omega arith), (inl (omega arith), _))
