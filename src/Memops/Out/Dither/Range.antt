-- ===== src/Memops/Out/Dither/Range.antt =====
-- The dithered conversions stay inside the memory of the channel and inside the array of errors.
use jack_example_tools.Base.{
  ℕ, zero, suc, ◌+◌, ◌*◌, ◌%◌, ◌^◌, ◌≤◌, ◌<◌, ◌≡◌, refl, ap, ◌∙◌, arith, Bool, true, false, Option,
  some, List, [], ◌∷◌, ◌>>=◌, length, length-set, get_elem?, set, lt→ltb, if◌then◌else◌,
}
use jack_example_tools.Bytes.{ByteOrder, little, big, splice, store}
use jack_example_tools.Bytes.Laws.{length-splice}
use jack_example_tools.Machine.{sub_u32}
use jack_example_tools.Memops.Float.{Floats, float_16_scaled}
use jack_example_tools.Memops.Loops.Strided.{suc-mul, put_lem, Outside, splice_elsewhere}
use jack_example_tools.Memops.Out.{bytes_16, bytes_16s}
use jack_example_tools.Memops.In.{short_value}
use jack_example_tools.Memops.Out.Dither.{
  fast_rand, masked, Dither, Ditherer, scaled_16, tri_noise, rect_sample, tri_sample, filtered,
  shaped_sample, dither_loop, sample_move_dither_rect_d16_sss, sample_move_dither_rect_d16_ss,
  sample_move_dither_tri_d16_sss, sample_move_dither_tri_d16_ss, sample_move_dither_shaped_d16_sss,
  sample_move_dither_shaped_d16_ss,
}

get_elem?-inside {ℓ} :
    {A : Type ℓ} (xs : List A) (i : ℕ) → i < length xs → (x : A) × (get_elem? xs i ≡ some x)
get_elem?-inside [] i h = absurd (omega arith)
get_elem?-inside (x ∷ xs) zero h = (x, refl)
get_elem?-inside (x ∷ xs) (suc i) h = get_elem?-inside xs i (omega arith)

bind_inside {ℓ κ} :
    {A : Type ℓ} {B : Type κ} (m : Option A) (f : A → Option B)
    → (x : A) × (m ≡ some x)
    → ((x : A) → (y : B) × (f x ≡ some y))
    → (y : B) × ((m >>= f) ≡ some y)
bind_inside m f (x, ran) rest = let (y, next) = rest x in (y, ap (λ t. t >>= f) ran ∙ next)

module _ (fl : Floats) where
  open fl use {F, add, sub, of_int}

  -- `DITHER_BUF_SIZE` errors, and an index of one of them.
  abbrev pub IsDither : Dither fl → Type 0
  IsDither d = (length d.e ≡ 8) × (d.idx < 8) × (d.seed < 2 ^ 32)

  fast_rand_lt : (seed : ℕ) → fast_rand seed < 2 ^ 32
  unfolding fast_rand
  fast_rand_lt seed = omega arith

  filtered-some :
      (e : List F) (idx : ℕ) (x : F)
      → length e ≡ 8
      → idx < 8
      → (y : F) × (filtered fl e idx x ≡ some y)
  unfolding filtered
  filtered-some e idx x len h = bind_inside _ _ (get_elem?-inside e idx (omega arith)) (λ e0.
      bind_inside _ _ (get_elem?-inside e (masked (sub_u32 idx 1)) (omega arith)) (λ e1.
        bind_inside _ _ (get_elem?-inside e (masked (sub_u32 idx 2)) (omega arith)) (λ e2.
          bind_inside _ _ (get_elem?-inside e (masked (sub_u32 idx 3)) (omega arith)) (λ e3.
            bind_inside _ _ (get_elem?-inside e (masked (sub_u32 idx 4)) (omega arith))
              (λ e4. (_, refl))))))

  shaped_sample-IsDither :
      (swapped : Bool) (d : Dither fl) (s : F)
      → IsDither d
      → (r : Dither fl × ℕ) × (shaped_sample fl swapped d s ≡ some r) × IsDither r.0
  unfolding shaped_sample store
  shaped_sample-IsDither swapped d s (len, h, k) =
      let (xe, ran) = filtered-some d.e d.idx (scaled_16 fl s) len h in
      let noise = tri_noise fl (fast_rand d.seed) (fast_rand (fast_rand d.seed)) in
      let xp = sub (add xe noise) d.rm1 in
      let z = float_16_scaled fl xp in
      let idx = masked (d.idx + 1) in
      let error = if swapped then sub xp xe else sub (of_int (short_value (z % 2 ^ 16))) xe in
      (
        (
          record {
            seed = fast_rand (fast_rand d.seed);
            rm1 = noise;
            idx = idx;
            e = set d.e idx error;
          },
          z,
        ),
        rw (ran, lt→ltb idx (length d.e) (omega arith)) refl,
        (length-set d.e idx error ∙ len, omega arith, fast_rand_lt (fast_rand d.seed)),
      )

  -- A conversion of one sample that succeeds and keeps the state.
  abbrev Converts : (Dither fl → F → Option (Dither fl × List ℕ)) → Type 0
  Converts conv =
      (d : Dither fl) (s : F)
      → IsDither d
      → (r : Dither fl × List ℕ) × (conv d s ≡ some r) × IsDither r.0 × (length r.1 ≡ 2)

  module _ (conv : Dither fl → F → Option (Dither fl × List ℕ)) (converts : Converts conv)
      (skip : ℕ) (wide : 2 ≤ skip) where
    dither_loop-IsDither :
        (n : ℕ) (d : Dither fl) (dst : List ℕ) (at : ℕ) (src : List F)
        → IsDither d
        → n ≤ length src
        → at + n * skip + 2 ≤ length dst + skip
        → (j : ℕ) → Outside 2 skip n at j
        → (d' : Dither fl) × (dst' : List ℕ) × (dither_loop fl conv n d dst at src skip
            ≡ some (d', dst'))
          × IsDither d'
          × (length dst' ≡ length dst)
          × (get_elem? dst' j ≡ get_elem? dst j)
    unfolding dither_loop
    dither_loop-IsDither zero d dst at src is enough room j out = (d, dst, refl, is, refl, refl)
    dither_loop-IsDither (suc n) d dst at [] is enough room j out = absurd (omega arith)
    dither_loop-IsDither (suc n) d dst at (s ∷ src) is enough room j out =
        let ((d1, bytes), ran, is1, size) = converts d s is in
        let fits : at + length bytes ≤ length dst =
          omega (arith, size, room, wide, suc-mul n skip) in
        let len = length-splice dst at bytes fits in
        let (d', dst', rest, is', same, outside) =
          dither_loop-IsDither n d1 (splice dst at bytes) (at + skip) src is1 (omega arith)
            (omega (arith, room, suc-mul n skip, len)) j out.1 in
        (
          d',
          dst',
          rw (ran, put_lem dst at bytes fits) rest,
          is',
          same ∙ len,
          outside ∙ splice_elsewhere dst at bytes fits j (rw size out.0),
        )

-- The kinds of dither.
pub data Kind : Type 0 where
  rect tri shaped : Kind

module _ (fl : Floats) where
  open fl use {F}

  -- The function of a kind, for the opposite byte order or for the host's.
  unfoldable pub ditherer_of : Kind → Bool → ByteOrder → Ditherer fl
  ditherer_of rect true = sample_move_dither_rect_d16_sss fl
  ditherer_of rect false = sample_move_dither_rect_d16_ss fl
  ditherer_of tri true = sample_move_dither_tri_d16_sss fl
  ditherer_of tri false = sample_move_dither_tri_d16_ss fl
  ditherer_of shaped true = sample_move_dither_shaped_d16_sss fl
  ditherer_of shaped false = sample_move_dither_shaped_d16_ss fl

  bytes_16s-length : (order : ByteOrder) (z : ℕ) → length (bytes_16s order z) ≡ 2
  unfolding bytes_16s
  bytes_16s-length little z = refl
  bytes_16s-length big z = refl

  bytes_16-length : (order : ByteOrder) (z : ℕ) → length (bytes_16 order z) ≡ 2
  unfolding bytes_16
  bytes_16-length little z = refl
  bytes_16-length big z = refl

  rect-Converts :
      (f : ℕ → List ℕ)
      → ((z : ℕ) → length (f z) ≡ 2)
      → Converts fl (λ d s. let r = rect_sample fl d s in some (r.0, f r.1))
  unfolding rect_sample
  rect-Converts f size d s (len, h, k) = (_, refl, (len, h, fast_rand_lt fl d.seed), size _)

  tri-Converts :
      (f : ℕ → List ℕ)
      → ((z : ℕ) → length (f z) ≡ 2)
      → Converts fl (λ d s. let r = tri_sample fl d s in some (r.0, f r.1))
  unfolding tri_sample
  tri-Converts f size d s (len, h, k) =
      (_, refl, (len, h, fast_rand_lt fl (fast_rand d.seed)), size _)

  shaped-Converts :
      (swapped : Bool) (f : ℕ → List ℕ)
      → ((z : ℕ) → length (f z) ≡ 2)
      → Converts fl (λ d s. shaped_sample fl swapped d s >>= λ r. some (r.0, f r.1))
  shaped-Converts swapped f size d s is =
      let (r, ran, is') = shaped_sample-IsDither fl swapped d s is in
      ((r.0, f r.1), rw ran refl, is', size r.1)

  -- Each of the six dithered conversions of samples to a channel that lies inside the memory succeeds:
  -- it neither leaves the memory nor the array of errors, keeps the state of the dither well formed and
  -- the length of the memory, and changes no byte outside the samples of the channel.
  pub ditherer-IsDither :
      (kind : Kind) (swapped : Bool) (order : ByteOrder) (nsamples : ℕ) (d : Dither fl)
      (dst : List ℕ) (at : ℕ) (src : List F) (skip : ℕ)
      → IsDither fl d
      → 2 ≤ skip
      → nsamples ≤ length src
      → at + nsamples * skip + 2 ≤ length dst + skip
      → (j : ℕ) → Outside 2 skip nsamples at j
      → (d' : Dither fl) × (dst' : List ℕ) × (ditherer_of kind swapped order nsamples d dst at src
            skip
          ≡ some (d', dst'))
        × IsDither fl d'
        × (length dst' ≡ length dst)
        × (get_elem? dst' j ≡ get_elem? dst j)
  unfolding ditherer_of sample_move_dither_rect_d16_sss sample_move_dither_rect_d16_ss
      sample_move_dither_tri_d16_sss sample_move_dither_tri_d16_ss sample_move_dither_shaped_d16_sss
      sample_move_dither_shaped_d16_ss
  ditherer-IsDither rect true order n d dst at src skip is wide enough room j out =
      dither_loop-IsDither fl _ (rect-Converts (bytes_16s order) (bytes_16s-length order)) skip wide
        n d dst at src is enough room j out
  ditherer-IsDither rect false order n d dst at src skip is wide enough room j out =
      dither_loop-IsDither fl _ (rect-Converts (bytes_16 order) (bytes_16-length order)) skip wide n
        d dst at src is enough room j out
  ditherer-IsDither tri true order n d dst at src skip is wide enough room j out =
      dither_loop-IsDither fl _ (tri-Converts (bytes_16s order) (bytes_16s-length order)) skip wide
        n d dst at src is enough room j out
  ditherer-IsDither tri false order n d dst at src skip is wide enough room j out =
      dither_loop-IsDither fl _ (tri-Converts (bytes_16 order) (bytes_16-length order)) skip wide n
        d dst at src is enough room j out
  ditherer-IsDither shaped true order n d dst at src skip is wide enough room j out =
      dither_loop-IsDither fl _ (shaped-Converts true (bytes_16s order) (bytes_16s-length order))
        skip wide n d dst at src is enough room j out
  ditherer-IsDither shaped false order n d dst at src skip is wide enough room j out =
      dither_loop-IsDither fl _ (shaped-Converts false (bytes_16 order) (bytes_16-length order))
        skip wide n d dst at src is enough room j out
