-- ===== src/Memops/Vector/Readers.antt =====
-- The readers with a vector unit are the plain ones, where they load no more than the channel's memory.
use jack_example_tools.Base.{ℕ, ◌+◌, ◌*◌, ◌≤◌, ◌≡◌, refl, Option, List, length}
use jack_example_tools.Bytes.{little}
use jack_example_tools.Memops.Float.{Floats}
use jack_example_tools.Memops.Loops.{plain, sse2, neon}
use jack_example_tools.Memops.In.{
  host_word, swapped_word, sample_move_ds_s32u24s, sample_move_ds_s32u24, sample_move_ds_s24,
  sample_move_ds_s16s, sample_move_ds_s16,
}
use jack_example_tools.Memops.Vector.Loads.{unrolled-read_loop, loaded-read_loop}

-- The readers with a vector unit whose samples are those of the plain reader: `sample_move_dS_s16`,
-- `_s16s`, `_s32u24` and `_s32u24s` with NEON, `_s32u24` and `_s24` with SSE2.
pub data VectorReader : Type 0 where
  neon_16 neon_16s neon_32u24 neon_32u24s sse2_32u24 sse2_24 : VectorReader

module _ (fl : Floats) (low : ℕ) where
  abbrev pub vector_of : VectorReader → ℕ → List ℕ → ℕ → ℕ → Option (List fl.F)
  vector_of neon_16 = sample_move_ds_s16 fl neon
  vector_of neon_16s = sample_move_ds_s16s fl neon
  vector_of neon_32u24 = sample_move_ds_s32u24 fl neon
  vector_of neon_32u24s = sample_move_ds_s32u24s fl neon
  vector_of sse2_32u24 = sample_move_ds_s32u24 fl sse2
  vector_of sse2_24 = sample_move_ds_s24 fl low sse2

  abbrev pub plain_of : VectorReader → ℕ → List ℕ → ℕ → ℕ → Option (List fl.F)
  plain_of neon_16 = sample_move_ds_s16 fl (plain little)
  plain_of neon_16s = sample_move_ds_s16s fl (plain little)
  plain_of neon_32u24 = sample_move_ds_s32u24 fl (plain little)
  plain_of neon_32u24s = sample_move_ds_s32u24s fl (plain little)
  plain_of sse2_32u24 = sample_move_ds_s32u24 fl (plain little)
  plain_of sse2_24 = sample_move_ds_s24 fl low (plain little)

-- Whether the reader loads whole frames at this skip, that of two channels.
abbrev pub LoadsFrames : VectorReader → ℕ → Type 0
LoadsFrames neon_16 skip = skip ≡ 4
LoadsFrames neon_16s skip = skip ≡ 4
LoadsFrames neon_32u24 skip = skip ≡ 8
LoadsFrames neon_32u24s skip = skip ≡ 8
LoadsFrames sse2_32u24 skip = ⊥
LoadsFrames sse2_24 skip = ⊥

-- The readers sample_move_dS_s16, _s16s, _s32u24 and _s32u24s with NEON, and _s32u24 and _s24 with
-- SSE2, give what the plain ones give on a host of little-endian words, memory faults included. Only
-- for a reader with NEON, and only where the skip is twice the size of its samples, `nsamples` whole
-- frames of memory must follow the start of the channel.
pub vector-plain :
    (fl : Floats) (low : ℕ) (r : VectorReader) (nsamples : ℕ) (src : List ℕ) (at skip : ℕ)
    → (LoadsFrames r skip → at + nsamples * skip ≤ length src)
    → vector_of fl low r nsamples src at skip ≡ plain_of fl low r nsamples src at skip
unfolding sample_move_ds_s16 sample_move_ds_s16s sample_move_ds_s32u24 sample_move_ds_s32u24s
    sample_move_ds_s24 host_word swapped_word
vector-plain fl low neon_16 n src at skip fits = loaded-read_loop 2 _ src skip n at fits
vector-plain fl low neon_16s n src at skip fits = loaded-read_loop 2 _ src skip n at fits
vector-plain fl low neon_32u24 n src at skip fits = loaded-read_loop 4 _ src skip n at fits
vector-plain fl low neon_32u24s n src at skip fits = loaded-read_loop 4 _ src skip n at fits
vector-plain fl low sse2_32u24 n src at skip fits =
    unrolled-read_loop 4 _ src skip _ n at (λ k h. refl)
vector-plain fl low sse2_24 n src at skip fits =
    unrolled-read_loop 3 _ src skip _ n at (λ k h. refl)
