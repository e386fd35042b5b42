-- ===== src/Memops/Vector/OverRead.antt =====
-- Where NEON loads two channels to take one of them, it loads past the last sample.
use jack_example_tools.Base.{
  ℕ, zero, suc, ◌+◌, ◌*◌, ◌/◌, ◌≤◌, ◌<◌, ◌≡◌, refl, ap, ◌∙◌, inl, inr, arith, Option, none, some,
  Option-cases, List, [], ◌∷◌, length, take, drop,
}
use jack_example_tools.Bytes.{little}
use jack_example_tools.Memops.Float.{Floats}
use jack_example_tools.Memops.Loops.{plain, neon, read_loop, read_groups, read_unrolled, load_lanes}
use jack_example_tools.Memops.Loops.Strided.{suc-mul, slice_lem}
use jack_example_tools.Memops.In.{sample_move_ds_s16}
use jack_example_tools.Memops.Vector.Loads.{slice_fault}

module _ {F : Type 0} (src : List ℕ) (skip : ℕ) where
  groups_fault :
      (group : List ℕ → ℕ → Option (List F)) (g at : ℕ)
      → group src (at + g * (4 * skip)) ≡ none
      → read_groups group (suc g) src at skip ≡ none
  unfolding read_groups
  groups_fault group zero at h =
      let here : group src at ≡ none = ap (group src) (omega arith) ∙ h in rw here refl
  groups_fault group (suc g) at h = elim (Option-cases (group src at)) [
    | inl fault ↦ rw fault refl
    | inr (xs, loaded) ↦
        let p : at + suc g * (4 * skip) ≡ at + 4 * skip + g * (4 * skip) =
          omega (arith, suc-mul g (4 * skip)) in
        rw
          (
            loaded,
            groups_fault group g (at + 4 * skip)
                (ap (group src) (omega (arith, suc-mul g (4 * skip))) ∙ h),
          )
          refl
  ]

  lanes_fault :
      (at : ℕ) (conv : List ℕ → F) → length src < at + 16 → load_lanes 2 conv 4 src at ≡ none
  unfolding load_lanes
  lanes_fault at conv h = rw (slice_fault src at 16 h) refl

  read_loop-some :
      (size : ℕ) (conv : List ℕ → F) (n at : ℕ)
      → at + n * skip + size ≤ length src + skip
      → (xs : List F) × (read_loop size conv n src at skip ≡ some xs)
  unfolding read_loop
  read_loop-some size conv zero at h = ([], refl)
  read_loop-some size conv (suc n) at h =
      let (xs, rest) = read_loop-some size conv n (at + skip) (omega (arith, suc-mul n skip)) in
      (
        conv (take size (drop at src)) ∷ xs,
        rw (slice_lem src at size (omega (arith, suc-mul n skip)), rest) refl,
      )

-- With NEON, sample_move_dS_s16 of a number of samples that 4 divides, from a channel of two in an
-- interleaved block, accesses memory outside the block where it ends before the last frame does, as
-- seen from the channel's first sample; without a vector unit it succeeds where the last sample is
-- inside.
pub s16_over_read :
    (fl : Floats) (g : ℕ) (src : List ℕ) (at : ℕ)
    → length src < at + suc g * 16
    → at + suc g * 16 ≤ length src + 2
    → (sample_move_ds_s16 fl neon (4 * suc g) src at 4 ≡ none)
      × ((xs : List fl.F) × (sample_move_ds_s16 fl (plain little) (4 * suc g) src at 4 ≡ some xs))
unfolding sample_move_ds_s16 read_unrolled
s16_over_read fl g src at short room =
    let e : 4 * suc g / 4 ≡ suc g = omega arith in
    (
      rw
          (
            e,
            groups_fault src 4 (load_lanes 2 _ 4) g at
                (lanes_fault src 4 (at + g * 16) _ (omega arith)),
          )
          refl,
      read_loop-some src 4 2 _ (4 * suc g) at (omega arith),
    )
