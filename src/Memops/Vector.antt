-- ===== src/Memops/Vector.antt =====
-- The writers of 24-bit samples on a host with SSE2 are the plain ones.
pub mod Loads
pub mod Readers
pub mod OverRead
use jack_example_tools.Base.{
  ℕ, zero, suc, ◌+◌, ◌*◌, ◌/◌, ◌%◌, ◌≡◌, refl, sym, ap, ◌∙◌, Option, none, some, List, [], ◌∷◌,
  ◌>>=◌, drop, All, arith, true,
}
use jack_example_tools.Bytes.{little}
use jack_example_tools.Memops.Float.{Floats, float_24, float_24_sse}
use jack_example_tools.Memops.Loops.{plain, sse2, put, write_loop, write_groups, write_unrolled}
use jack_example_tools.Memops.Loops.Unrolled.{bind_congr, unrolled-write_loop}
use jack_example_tools.Memops.Out.{bytes_24, sample_move_d24_ss}
use jack_example_tools.Memops.Range.{FloatLaws, IsNumber, float_24_sse-float_24}

All-drop {ℓ κ} : {A : Type ℓ} (P : A → Type κ) (n : ℕ) (xs : List A) → All P xs → All P (drop n xs)
All-drop P zero xs h = h
All-drop P (suc n) [] h = _
All-drop P (suc n) (x ∷ xs) (h, hs) = All-drop P n xs hs

module _ {F : Type 0} (f g : F → List ℕ) (skip : ℕ) where
  write_loop_congr :
      (n : ℕ) (dst : List ℕ) (at : ℕ) (src : List F)
      → All (λ s. f s ≡ g s) src
      → write_loop f n dst at src skip ≡ write_loop g n dst at src skip
  unfolding write_loop
  write_loop_congr zero dst at src h = refl
  write_loop_congr (suc n) dst at [] h = refl
  write_loop_congr (suc n) dst at (s ∷ src) (e, h) =
      rw e (bind_congr (put dst at (g s)) _ _ (λ d. write_loop_congr n d (at + skip) src h))

  write_groups_congr :
      (n : ℕ) (dst : List ℕ) (at : ℕ) (src : List F)
      → All (λ s. f s ≡ g s) src
      → write_groups (λ dst at src. write_loop f 4 dst at src skip) n dst at src skip
        ≡ write_groups (λ dst at src. write_loop g 4 dst at src skip) n dst at src skip
  unfolding write_groups
  write_groups_congr zero dst at src h = refl
  write_groups_congr (suc n) dst at src h = rw (write_loop_congr 4 dst at src h) (
      bind_congr (write_loop g 4 dst at src skip) _ _
        (λ d. write_groups_congr n d (at + 4 * skip) (drop 4 src) (All-drop _ 4 src h)))

  -- Groups that convert as the last loop does are the plain loop.
  groups_as_loop :
      (n : ℕ) (dst : List ℕ) (at : ℕ) (src : List F)
      → All (λ s. f s ≡ g s) src
      → write_unrolled (λ dst at src. write_loop f 4 dst at src skip) g n dst at src skip
        ≡ write_loop g n dst at src skip
  unfolding write_unrolled
  groups_as_loop n dst at src h =
      ap
        (λ m.
          m >>= λ d. write_loop g (n % 4) d (at + n / 4 * (4 * skip)) (drop (n / 4 * 4) src) skip)
        (write_groups_congr (n / 4) dst at src h)
      ∙ unrolled-write_loop g skip (λ dst at src. write_loop g 4 dst at src skip) (λ d a s. refl) n
          dst at src

module _ (fl : Floats) (laws : FloatLaws fl) where
  same_bytes :
      (src : List fl.F)
      → All (IsNumber fl) src
      → All (λ s. bytes_24 little (float_24_sse fl s) ≡ bytes_24 little (float_24 fl s)) src
  same_bytes [] h = _
  same_bytes (s ∷ src) (num, h) =
      (ap (bytes_24 little) (float_24_sse-float_24 fl laws s num), same_bytes src h)

  -- For samples that are numbers, sample_move_d24_sS with SSE2, four samples at a time, leaves in memory
  -- what it leaves there without a vector unit, or accesses memory outside the block where that does.
  pub sse2-plain :
      (nsamples : ℕ) (dst : List ℕ) (at : ℕ) (src : List fl.F) (skip : ℕ)
      → All (IsNumber fl) src
      → sample_move_d24_ss fl sse2 nsamples dst at src skip
        ≡ sample_move_d24_ss fl (plain little) nsamples dst at src skip
  unfolding sample_move_d24_ss
  sse2-plain nsamples dst at src skip num =
      groups_as_loop (λ s. bytes_24 little (float_24_sse fl s))
        (λ s. bytes_24 little (float_24 fl s)) skip nsamples dst at src (same_bytes src num)
