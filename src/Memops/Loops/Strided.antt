-- ===== src/Memops/Loops/Strided.antt =====
-- What the loops of common/memops.c write and read, sample by sample.
use jack_example_tools.Base.{
  ℕ, zero, suc, ◌+◌, ◌-◌, ◌*◌, ◌≤◌, ◌<◌, ◌≡◌, ◌⊎◌, refl, sym, ap, ◌∙◌, inl, inr, arith, some, List,
  [], ◌∷◌, ◌++◌, map, length, length-append, take, drop, get_elem?, length-take, length-drop,
  get_elem?-take, get_elem?-drop, get_elem?_ext, Bool-cases, ltb, ltb→lt, ltb→le,
  get_elem?-append_left, get_elem?-append_right,
}
use jack_example_tools.Bytes.{splice}
use jack_example_tools.Bytes.Laws.{
  memcpy_lem, length-splice, get_elem?-splice_before, get_elem?-splice_in, get_elem?-splice_after,
}
use jack_example_tools.Netjack.Midi.{slice}
use jack_example_tools.Memops.Loops.{put, write_loop, read_loop}

pub suc-mul : (n k : ℕ) → suc n * k ≡ k + n * k
suc-mul n k = grind arith

take_whole {ℓ} : {A : Type ℓ} (xs : List A) → take (length xs) xs ≡ xs
take_whole [] = refl
take_whole (x ∷ xs) = ap (◌∷◌ x) (take_whole xs)

pub put_lem :
    (dst : List ℕ) (at : ℕ) (bytes : List ℕ)
    → at + length bytes ≤ length dst
    → put dst at bytes ≡ some (splice dst at bytes)
unfolding put
put_lem dst at bytes h =
    memcpy_lem dst at bytes (length bytes) h (omega arith)
    ∙ ap (λ t. some (splice dst at t)) (take_whole bytes)

pub slice_lem :
    (src : List ℕ) (at n : ℕ) → at + n ≤ length src → slice src at n ≡ some (take n (drop at src))
unfolding slice
slice_lem src at n h = ground arith

-- The bytes of a slice.
get_elem?-slice :
    (xs : List ℕ) (at n i : ℕ) → i < n → get_elem? (take n (drop at xs)) i ≡ get_elem? xs (at + i)
get_elem?-slice xs at n i h = get_elem?-take n (drop at xs) i h ∙ get_elem?-drop at xs i

-- Two blocks of one length that agree in a range have the same slice there.
pub slice_congr :
    (xs ys : List ℕ) (at n : ℕ)
    → length xs ≡ length ys
    → ((j : ℕ) → at ≤ j → j < at + n → get_elem? xs j ≡ get_elem? ys j)
    → take n (drop at xs) ≡ take n (drop at ys)
slice_congr xs ys at n len same =
    get_elem?_ext _ _
      (omega (
        arith,
        length-take n (drop at xs),
        length-take n (drop at ys),
        length-drop at xs,
        length-drop at ys,
      ))
      (λ i h.
        let below : i < n = omega (arith, length-take n (drop at xs)) in
        get_elem?-slice xs at n i below
        ∙ same (at + i) (omega arith) (omega arith)
        ∙ sym (get_elem?-slice ys at n i below))

pub slice-splice :
    (dst : List ℕ) (at : ℕ) (bytes : List ℕ)
    → at + length bytes ≤ length dst
    → take (length bytes) (drop at (splice dst at bytes)) ≡ bytes
slice-splice dst at bytes h =
    get_elem?_ext _ _
      (omega (
        arith,
        length-take (length bytes) (drop at (splice dst at bytes)),
        length-drop at (splice dst at bytes),
        length-splice dst at bytes h,
      ))
      (λ i k.
        let below : i < length bytes =
          omega (arith, length-take (length bytes) (drop at (splice dst at bytes))) in
        get_elem?-slice (splice dst at bytes) at (length bytes) i below
        ∙ get_elem?-splice_in dst at bytes h (at + i) (omega arith) (omega arith)
        ∙ ap (get_elem? bytes) (omega arith))

pub splice_elsewhere :
    (dst : List ℕ) (at : ℕ) (bytes : List ℕ)
    → at + length bytes ≤ length dst
    → (j : ℕ) → (j < at) ⊎ (at + length bytes ≤ j)
    → get_elem? (splice dst at bytes) j ≡ get_elem? dst j
splice_elsewhere dst at bytes h j (inl low) = get_elem?-splice_before dst at bytes h j low
splice_elsewhere dst at bytes h j (inr high) = get_elem?-splice_after dst at bytes h j high

module _ (size skip : ℕ) where
  -- The byte `j` is in none of the lanes of `n` samples.
  abbrev pub Outside : ℕ → ℕ → ℕ → Type 0
  Outside zero at j = Unit
  Outside (suc n) at j = ((j < at) ⊎ (at + size ≤ j)) × Outside n (at + skip) j

  pub below-Outside : (n at j : ℕ) → j < at → Outside n at j
  below-Outside zero at j h = _
  below-Outside (suc n) at j h = (inl h, below-Outside n (at + skip) j (omega arith))

  -- A channel of units of `size'` bytes at `at'`, apart from the one at `at`.
  abbrev pub Apart : ℕ → ℕ → ℕ → Type 0
  Apart size' at at' =
      ((at + size ≤ at') × (at' + size' ≤ at + skip))
      ⊎ ((at' + size' ≤ at) × (at + size ≤ at' + skip))

  lane_free :
      (size' n k at at' j : ℕ)
      → Apart size' at at'
      → at' + k * skip ≤ j
      → j < at' + k * skip + size'
      → Outside n at j
  lane_free size' zero k at at' j apart low high = _
  lane_free size' (suc n) zero at at' j (inl (a, b)) low high =
      (inr (omega arith), below-Outside n (at + skip) j (omega arith))
  lane_free size' (suc n) zero at at' j (inr (a, b)) low high =
      (inl (omega arith), below-Outside n (at + skip) j (omega arith))
  lane_free size' (suc n) (suc k) at at' j (inl (a, b)) low high = (
    inr (omega (arith, suc-mul k skip)),
    lane_free size' n k (at + skip) (at' + skip) j (inl (omega arith, omega arith))
        (omega (arith, suc-mul k skip)) (omega (arith, suc-mul k skip)),
  )
  lane_free size' (suc n) (suc k) at at' j (inr (a, b)) low high = (
    inr (omega (arith, suc-mul k skip)),
    lane_free size' n k (at + skip) (at' + skip) j (inr (omega arith, omega arith))
        (omega (arith, suc-mul k skip)) (omega (arith, suc-mul k skip)),
  )

  slice_same :
      (xs ys : List ℕ) (at n : ℕ)
      → length xs ≡ length ys
      → ((j : ℕ) → at ≤ j → j < at + n → get_elem? xs j ≡ get_elem? ys j)
      → slice xs at n ≡ slice ys at n
  unfolding slice
  slice_same xs ys at n len same = rw (len, slice_congr xs ys at n len same) refl

  read_loop_free :
      {G : Type 0} (dec : List ℕ → G) (size' m at' : ℕ) (xs ys : List ℕ)
      → length xs ≡ length ys
      → ((k j : ℕ)
          → at' + k * skip ≤ j
          → j < at' + k * skip + size'
          → get_elem? xs j ≡ get_elem? ys j)
      → read_loop size' dec m xs at' skip ≡ read_loop size' dec m ys at' skip
  unfolding read_loop
  read_loop_free dec size' zero at' xs ys len same = refl
  read_loop_free dec size' (suc m) at' xs ys len same =
      rw
        (
          slice_same xs ys at' size' len (λ j low high. same 0 j (omega arith) (omega arith)),
          read_loop_free dec size' m (at' + skip) xs ys len (λ k j low high.
              same (suc k) j (omega (arith, suc-mul k skip)) (omega (arith, suc-mul k skip))),
        )
        refl

  -- Another channel reads the same from two blocks that differ in the lanes of this one only.
  pub read_loop-Apart :
      {G : Type 0} (dec : List ℕ → G) (size' n m at at' : ℕ) (xs ys : List ℕ)
      → length xs ≡ length ys
      → ((j : ℕ) → Outside n at j → get_elem? xs j ≡ get_elem? ys j)
      → Apart size' at at'
      → read_loop size' dec m xs at' skip ≡ read_loop size' dec m ys at' skip
  read_loop-Apart dec size' n m at at' xs ys len same apart =
      read_loop_free dec size' m at' xs ys len
        (λ k j low high. same j (lane_free size' n k at at' j apart low high))

module _ {F : Type 0} (size skip : ℕ) (wide : size ≤ skip) (conv : F → List ℕ)
    (conv_size : (s : F) → length (conv s) ≡ size) where
  -- What a loop leaves behind it.
  pub record Written (n at : ℕ) (src : List F) (dst dst' : List ℕ) : Type 1 where
    pub same_length : length dst' ≡ length dst
    pub outside : (j : ℕ) → Outside size skip n at j → get_elem? dst' j ≡ get_elem? dst j
    pub read_back :
        {G : Type 0} (dec : List ℕ → G)
        → read_loop size dec n dst' at skip ≡ some (map (λ s. dec (conv s)) (take n src))

  pub write_loop-Written :
      (n : ℕ) (dst : List ℕ) (at : ℕ) (src : List F)
      → n ≤ length src
      → at + n * skip + size ≤ length dst + skip
      → (dst' : List ℕ) × (write_loop conv n dst at src skip ≡ some dst')
        × Written n at src dst dst'
  unfolding write_loop read_loop
  write_loop-Written zero dst at src enough room =
      (dst, refl, record { same_length = refl; outside = λ j h. refl; read_back = λ dec. refl })
  write_loop-Written (suc n) dst at [] enough room = absurd (omega arith)
  write_loop-Written (suc n) dst at (s ∷ src) enough room =
      let fits : at + length (conv s) ≤ length dst = omega (arith, conv_size s, suc-mul n skip) in
      let len = length-splice dst at (conv s) fits in
      let (dst', ran, w) =
        write_loop-Written n (splice dst at (conv s)) (at + skip) src (omega arith)
          (omega (arith, suc-mul n skip, len)) in
      let keep : (j : ℕ)
          → at ≤ j
          → j < at + size
          → get_elem? dst' j ≡ get_elem? (splice dst at (conv s)) j =
        λ j low high. w.outside j (below-Outside size skip n (at + skip) j (omega arith)) in
      let here : slice dst' at size ≡ some (conv s) =
        slice_lem dst' at size (omega (arith, w.same_length, len, fits, conv_size s))
        ∙ ap some (
            slice_congr dst' (splice dst at (conv s)) at size w.same_length keep
            ∙ ap (λ k. take k (drop at (splice dst at (conv s)))) (sym (conv_size s))
            ∙ slice-splice dst at (conv s) fits) in
      (
        dst',
        rw (put_lem dst at (conv s) fits) ran,
        record {
          same_length = w.same_length ∙ len;
          outside = λ j h.
              w.outside j h.1 ∙ splice_elsewhere dst at (conv s) fits j (rw (conv_size s) h.0);
          read_back = λ dec. rw (here, w.read_back dec) refl;
        },
      )

pub splice-append :
    (dst : List ℕ) (at : ℕ) (xs ys : List ℕ)
    → at + length (xs ++ ys) ≤ length dst
    → splice dst at (xs ++ ys) ≡ splice (splice dst at xs) (at + length xs) ys
splice-append dst at xs ys h =
    let both = length-append xs ys in
    let first : at + length xs ≤ length dst = omega (arith, both) in
    let len = length-splice dst at xs first in
    let second : at + length xs + length ys ≤ length (splice dst at xs) =
      omega (arith, both, len) in
    get_elem?_ext _ _
      (length-splice dst at (xs ++ ys) h
        ∙ sym len
        ∙ sym (length-splice (splice dst at xs) (at + length xs) ys second))
      (λ j k. elim (Bool-cases (ltb j (at + length xs))) [
        | inl low ↦
            let b = ltb→lt _ _ low in
            elim (Bool-cases (ltb j at)) [
              | inl below ↦
                  let c = ltb→lt _ _ below in
                  get_elem?-splice_before dst at (xs ++ ys) h j c
                  ∙ sym (get_elem?-splice_before dst at xs first j c)
                  ∙ sym (get_elem?-splice_before (splice dst at xs) (at + length xs) ys second j b)
              | inr inside ↦
                  let c = ltb→le _ _ inside in
                  get_elem?-splice_in dst at (xs ++ ys) h j c (omega (arith, b, both))
                  ∙ get_elem?-append_left xs ys (j - at) (omega (arith, b, c))
                  ∙ sym (get_elem?-splice_in dst at xs first j c b)
                  ∙ sym (get_elem?-splice_before (splice dst at xs) (at + length xs) ys second j b)
            ]
        | inr high ↦
            let b = ltb→le _ _ high in
            elim (Bool-cases (ltb j (at + length xs + length ys))) [
              | inl inside ↦
                  let c = ltb→lt _ _ inside in
                  get_elem?-splice_in dst at (xs ++ ys) h j (omega (arith, b))
                    (omega (arith, c, both))
                  ∙ get_elem?-append_right xs ys (j - at) (omega (arith, b))
                  ∙ ap (get_elem? ys) (omega (arith, b))
                  ∙ sym (get_elem?-splice_in (splice dst at xs) (at + length xs) ys second j b c)
              | inr above ↦
                  let c = ltb→le _ _ above in
                  get_elem?-splice_after dst at (xs ++ ys) h j (omega (arith, c, both))
                  ∙ sym (get_elem?-splice_after dst at xs first j (omega (arith, c)))
                  ∙ sym (get_elem?-splice_after (splice dst at xs) (at + length xs) ys second j c)
            ]
      ])
