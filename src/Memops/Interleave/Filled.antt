-- ===== src/Memops/Interleave/Filled.antt =====
-- What the fill of common/memops.c leaves in memory, and the rounds that it takes.
use jack_example_tools.Base.{
  ℕ, zero, suc, ◌+◌, ◌*◌, ◌^◌, ◌≤◌, ◌<◌, ◌≡◌, inl, inr, refl, ap, ◌∙◌, arith, Bool-cases, some,
  List, ◌∷◌, map, ◌==◌, ==_iff, length, replicate, length-replicate, take, get_elem?,
}
use jack_example_tools.Bytes.{ByteOrder, little, big, word_bytes, net32}
use jack_example_tools.Memops.Out.{bytes_16}
use jack_example_tools.Memops.Loops.{put, write_loop, read_loop}
use jack_example_tools.Memops.Loops.Strided.{suc-mul, Outside, write_loop-Written}
use jack_example_tools.Memops.Loops.Unrolled.{bind_congr}
use jack_example_tools.Memops.Interleave.{unit_of, fill_loop, memset_interleave}
use jack_example_tools.Memops.Interleave.Copied.{one_less, not_done, done_lem}

module _ (order : ByteOrder) (unit : List ℕ) (unit_bytes skip : ℕ) (positive : 1 ≤ unit_bytes) where
  fill_loop-write_loop :
      (n fuel : ℕ) (dst : List ℕ) (at : ℕ)
      → n < fuel
      → n * unit_bytes < 2 ^ 64
      → fill_loop fuel dst at unit (n * unit_bytes) unit_bytes skip
        ≡ write_loop (λ u. unit) n dst at (replicate n unit) skip
  unfolding fill_loop write_loop
  fill_loop-write_loop n zero dst at h k = absurd (omega arith)
  fill_loop-write_loop zero (suc fuel) dst at h k = rw (done_lem unit_bytes, fill_loop) refl
  fill_loop-write_loop (suc n) (suc fuel) dst at h k =
      rw (not_done n unit_bytes positive, fill_loop)
        (rw (one_less n unit_bytes k) (
          bind_congr (put dst at unit) _ _ (λ d.
            fill_loop-write_loop n fuel d (at + skip) (omega arith)
              (omega (arith, suc-mul n unit_bytes)))))

unit_of_zero :
    (order : ByteOrder) (unit_bytes : ℕ) → unit_of order 0 unit_bytes ≡ replicate unit_bytes 0
unfolding unit_of bytes_16 word_bytes net32
unit_of_zero order unit_bytes = elim (Bool-cases (unit_bytes == 1)) [
  | inl one ↦ rw (one, (==_iff unit_bytes 1).0 one) refl
  | inr not_one ↦ elim (Bool-cases (unit_bytes == 2)) [
    | inl two ↦ rw (not_one, two, (==_iff unit_bytes 2).0 two) (zero_16 order)
    | inr not_two ↦ elim (Bool-cases (unit_bytes == 4)) [
      | inl four ↦ rw (not_one, not_two, four, (==_iff unit_bytes 4).0 four) (zero_32 order)
      | inr other ↦ rw (not_one, not_two, other) refl
    ]
  ]
]
  where
    zero_16 : (order : ByteOrder) → bytes_16 order 0 ≡ replicate 2 0
    zero_16 little = refl
    zero_16 big = refl

    zero_32 : (order : ByteOrder) → word_bytes order 0 ≡ replicate 4 0
    zero_32 little = refl
    zero_32 big = refl

map-replicate {ℓ κ} :
    {A : Type ℓ} {B : Type κ} (n : ℕ) (a : A) (b : B)
    → map (λ x. b) (take n (replicate n a)) ≡ replicate n b
map-replicate zero a b = refl
map-replicate (suc n) a b = ap (b ∷◌) (map-replicate n a b)

-- Filled with 0, a channel that lies inside the memory is `n` units of zero bytes, whatever the size
-- of a unit, after `n` rounds; every byte between them is as before.
pub memset_interleave_zero :
    (order : ByteOrder) (fuel n : ℕ) (dst : List ℕ) (at unit_bytes skip : ℕ)
    → n < fuel
    → n * unit_bytes < 2 ^ 64
    → 1 ≤ unit_bytes
    → unit_bytes ≤ skip
    → at + n * skip + unit_bytes ≤ length dst + skip
    → (j : ℕ) → Outside unit_bytes skip n at j
    → (dst' : List ℕ) × (memset_interleave order fuel dst at 0 (n * unit_bytes) unit_bytes skip
        ≡ some dst')
      × (length dst' ≡ length dst)
      × (read_loop unit_bytes (λ bytes. bytes) n dst' at skip
          ≡ some (replicate n (replicate unit_bytes 0)))
      × (get_elem? dst' j ≡ get_elem? dst j)
unfolding memset_interleave
memset_interleave_zero order fuel n dst at unit_bytes skip enough small positive wide room j out =
    let unit = replicate unit_bytes 0 in
    let (dst', ran, w) =
      write_loop-Written unit_bytes skip wide (λ u. unit) (λ u. length-replicate unit_bytes 0) n dst
        at (replicate n unit) (omega (arith, length-replicate n unit)) room in
    (
      dst',
      ap (λ u. fill_loop fuel dst at u (n * unit_bytes) unit_bytes skip)
            (unit_of_zero order unit_bytes)
          ∙ fill_loop-write_loop order unit unit_bytes skip positive n fuel dst at enough small
          ∙ ran,
      w.same_length,
      w.read_back (λ bytes. bytes) ∙ ap some (map-replicate n unit unit),
      w.outside j out,
    )
