-- ===== src/Memops/Interleave/Copied.antt =====
-- What the copies of common/memops.c leave in memory, and the rounds that they take.
use jack_example_tools.Base.{
  ℕ, zero, suc, ◌+◌, ◌*◌, ◌^◌, ◌≤◌, ◌<◌, ◌≡◌, inl, inr, refl, sym, ap, ◌∙◌, arith, true, false,
  Bool-cases, some, List, [], ◌∷◌, map, ◌>>=◌, ◌==◌, ==_iff, length, take, drop, length-take,
  length-drop, get_elem?,
}
use jack_example_tools.Machine.{sub_size}
use jack_example_tools.Netjack.Midi.{slice}
use jack_example_tools.Memops.Loops.{put, write_loop, read_loop}
use jack_example_tools.Memops.Loops.Strided.{suc-mul, slice_lem, Outside, write_loop-Written}
use jack_example_tools.Memops.Loops.Unrolled.{bind_congr}
use jack_example_tools.Memops.Interleave.{
  Copy, copy_loop, memcpy_interleave_d16_s16, memcpy_interleave_d24_s24, memcpy_interleave_d32_s32,
}

-- The count of bytes after a round, and the test of the loop.
pub one_less : (n size : ℕ) → suc n * size < 2 ^ 64 → sub_size (suc n * size) size ≡ n * size
one_less n size h = omega (arith, suc-mul n size)

pub not_done : (n size : ℕ) → 1 ≤ size → (suc n * size == 0) ≡ false
not_done n size h = elim (Bool-cases (suc n * size == 0)) [
  | inl done ↦ absurd (omega (arith, (==_iff (suc n * size) 0).0 done, suc-mul n size))
  | inr more ↦ more
]

pub done_lem : (size : ℕ) → (zero * size == 0) ≡ true
done_lem size = (==_iff (zero * size) 0).1 (omega arith)

take_all {ℓ} : {A : Type ℓ} (xs : List A) → take (length xs) xs ≡ xs
take_all [] = refl
take_all (x ∷ xs) = ap (◌∷◌ x) (take_all xs)

abbrev Piece : ℕ → Type 0
Piece size = (bytes : List ℕ) × (length bytes ≡ size)

abbrev bytes_of : (size : ℕ) → Piece size → List ℕ
bytes_of size p = p.0

module _ (size : ℕ) (positive : 1 ≤ size) (src : List ℕ) (src_skip : ℕ) where
  -- The units of a channel, in order, and the copy of them.
  record Units (n from : ℕ) : Type 1 where
    pub units : List (Piece size)
    pub count : length units ≡ n
    pub reads :
        {G : Type 0} (dec : List ℕ → G)
        → read_loop size dec n src from src_skip ≡ some (map (λ p. dec (bytes_of size p)) units)
    pub copies :
        (fuel : ℕ) (dst : List ℕ) (at dst_skip : ℕ)
        → n < fuel
        → n * size < 2 ^ 64
        → copy_loop size fuel dst at src from (n * size) dst_skip src_skip
          ≡ write_loop (bytes_of size) n dst at units dst_skip

  copies_none :
      (fuel : ℕ) (dst : List ℕ) (at from dst_skip : ℕ)
      → 0 < fuel
      → copy_loop size fuel dst at src from (0 * size) dst_skip src_skip ≡ some dst
  unfolding copy_loop
  copies_none zero dst at from dst_skip h = absurd (omega arith)
  copies_none (suc fuel) dst at from dst_skip h = rw (done_lem size, copy_loop) refl

  -- A round copies one unit.
  copies_more :
      (fuel n : ℕ) (p : Piece size) (dst : List ℕ) (at from dst_skip : ℕ)
      → slice src from size ≡ some (bytes_of size p)
      → suc n * size < 2 ^ 64
      → copy_loop size (suc fuel) dst at src from (suc n * size) dst_skip src_skip ≡ (
          put dst at (bytes_of size p) >>= λ d.
          copy_loop size fuel d (at + dst_skip) src (from + src_skip) (n * size) dst_skip src_skip)
  unfolding copy_loop
  copies_more fuel n p dst at from dst_skip here h =
      rw (not_done n size positive, copy_loop) (rw (here, one_less n size h) refl)

  Units-from : (n from : ℕ) → from + n * src_skip + size ≤ length src + src_skip → Units n from
  unfolding write_loop read_loop
  Units-from zero from room = record {
    units = [];
    count = refl;
    reads = λ dec. refl;
    copies = λ fuel dst at dst_skip h k. copies_none fuel dst at from dst_skip h;
  }
  Units-from (suc n) from room =
      let rest = Units-from n (from + src_skip) (omega (arith, suc-mul n src_skip)) in
      let fits : from + size ≤ length src = omega (arith, room, suc-mul n src_skip) in
      let here = slice_lem src from size fits in
      let p : Piece size = (
        take size (drop from src),
        omega (arith, length-take size (drop from src), length-drop from src),
      ) in
      record {
        units = p ∷ rest.units;
        count = ap suc rest.count;
        reads = λ dec. rw (here, rest.reads dec) refl;
        copies = λ fuel dst at dst_skip h k. more rest p here fuel dst at dst_skip h k;
      }
    where
      more :
          (rest : Units n (from + src_skip)) (p : Piece size)
          → slice src from size ≡ some (bytes_of size p)
          → (fuel : ℕ) (dst : List ℕ) (at dst_skip : ℕ) → suc n < fuel
          → suc n * size < 2 ^ 64
          → copy_loop size fuel dst at src from (suc n * size) dst_skip src_skip
            ≡ write_loop (bytes_of size) (suc n) dst at (p ∷ rest.units) dst_skip
      more rest p here zero dst at dst_skip h k = absurd (omega arith)
      more rest p here (suc fuel) dst at dst_skip h k =
          copies_more fuel n p dst at from dst_skip here k
          ∙ bind_congr (put dst at (bytes_of size p)) _ _ (λ d.
            rest.copies fuel d (at + dst_skip) dst_skip (omega arith)
              (omega (arith, suc-mul n size)))

  -- The copy of a channel, with more rounds of fuel than there are units.
  pub copied :
      (fuel n : ℕ) (dst : List ℕ) (at from dst_skip : ℕ)
      → n < fuel
      → n * size < 2 ^ 64
      → size ≤ dst_skip
      → from + n * src_skip + size ≤ length src + src_skip
      → at + n * dst_skip + size ≤ length dst + dst_skip
      → (dst' : List ℕ) × (copy_loop size fuel dst at src from (n * size) dst_skip src_skip
          ≡ some dst')
        × (length dst' ≡ length dst)
        × (read_loop size (λ bytes. bytes) n dst' at dst_skip
            ≡ read_loop size (λ bytes. bytes) n src from src_skip)
        × ((j : ℕ) → Outside size dst_skip n at j → get_elem? dst' j ≡ get_elem? dst j)
  copied fuel n dst at from dst_skip enough small wide source room =
      let u = Units-from n from source in
      let (dst', ran, w) =
        write_loop-Written size dst_skip wide (bytes_of size) (λ p. p.1) n dst at u.units
          (omega (arith, u.count)) room in
      (
        dst',
        u.copies fuel dst at dst_skip enough small ∙ ran,
        w.same_length,
        w.read_back (λ bytes. bytes)
            ∙ ap some (
                ap (map (bytes_of size))
                  (ap (λ k. take k u.units) (sym u.count) ∙ take_all u.units))
            ∙ sym (u.reads (λ bytes. bytes)),
        w.outside,
      )

-- The three copies, by the size of their units.
pub data Width : Type 0 where
  d16 d24 d32 : Width

abbrev pub bytes_in : Width → ℕ
bytes_in d16 = 2
bytes_in d24 = 3
bytes_in d32 = 4

unfoldable pub memcpy_interleave : Width → Copy
memcpy_interleave d16 = memcpy_interleave_d16_s16
memcpy_interleave d24 = memcpy_interleave_d24_s24
memcpy_interleave d32 = memcpy_interleave_d32_s32

memcpy_interleave-copy_loop :
    (w : Width) (fuel : ℕ) (dst : List ℕ) (at : ℕ) (src : List ℕ) (from bytes dst_skip src_skip : ℕ)
    → memcpy_interleave w fuel dst at src from bytes dst_skip src_skip
      ≡ copy_loop (bytes_in w) fuel dst at src from bytes dst_skip src_skip
unfolding memcpy_interleave memcpy_interleave_d16_s16 memcpy_interleave_d24_s24
    memcpy_interleave_d32_s32
memcpy_interleave-copy_loop d16 fuel dst at src from bytes dst_skip src_skip = refl
memcpy_interleave-copy_loop d24 fuel dst at src from bytes dst_skip src_skip = refl
memcpy_interleave-copy_loop d32 fuel dst at src from bytes dst_skip src_skip = refl

-- Of channels that lie inside their memory, memcpy_interleave_d16_s16, d24_s24 and d32_s32 copy `n`
-- whole units in `n` rounds: the destination's channel then reads as the source's, unit by unit, and
-- every byte between its units is as before.
pub memcpy_interleave-copied :
    (w : Width) (fuel n : ℕ) (dst : List ℕ) (at : ℕ) (src : List ℕ) (from dst_skip src_skip : ℕ)
    → n < fuel
    → n * bytes_in w < 2 ^ 64
    → bytes_in w ≤ dst_skip
    → from + n * src_skip + bytes_in w ≤ length src + src_skip
    → at + n * dst_skip + bytes_in w ≤ length dst + dst_skip
    → (j : ℕ) → Outside (bytes_in w) dst_skip n at j
    → (dst' : List ℕ) × (memcpy_interleave w fuel dst at src from (n * bytes_in w) dst_skip src_skip
        ≡ some dst')
      × (length dst' ≡ length dst)
      × (read_loop (bytes_in w) (λ bytes. bytes) n dst' at dst_skip
          ≡ read_loop (bytes_in w) (λ bytes. bytes) n src from src_skip)
      × (get_elem? dst' j ≡ get_elem? dst j)
memcpy_interleave-copied w fuel n dst at src from dst_skip src_skip enough small wide source room j
      out =
    let (dst', ran, len, same, outside) =
      copied (bytes_in w) (some_bytes w) src src_skip fuel n dst at from dst_skip enough small wide
        source room in
    (
      dst',
      memcpy_interleave-copy_loop w fuel dst at src from (n * bytes_in w) dst_skip src_skip ∙ ran,
      len,
      same,
      outside j out,
    )
  where
    some_bytes : (w : Width) → 1 ≤ bytes_in w
    some_bytes d16 = omega arith
    some_bytes d24 = omega arith
    some_bytes d32 = omega arith
