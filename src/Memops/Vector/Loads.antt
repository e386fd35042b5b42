-- ===== src/Memops/Vector/Loads.antt =====
-- Loads of four lanes, and the loops by fours, read what the loop over single samples reads, where they
-- load no more than the channel's memory.
use jack_example_tools.Base.{
  ℕ, zero, suc, ◌+◌, ◌-◌, ◌*◌, ◌/◌, ◌%◌, ◌≤◌, ◌<◌, ◌≡◌, refl, sym, ap, ap₂, ◌∙◌, inl, inr, arith,
  Bool-cases, leb, leb→le, leb→lt, Option, none, some, Option-cases, List, [], ◌∷◌, ◌++◌, ◌>>=◌,
  ◌==◌, ==_iff, length, take, drop, get_elem?, get_elem?_ext, length-take, length-drop,
  get_elem?-take, get_elem?-drop,
}
use jack_example_tools.Netjack.Midi.{slice}
use jack_example_tools.Memops.Loops.{read_loop, read_groups, read_unrolled, load_lanes}
use jack_example_tools.Memops.Loops.Strided.{suc-mul, slice_lem}
use jack_example_tools.Memops.Loops.Unrolled.{bind_congr, bind_assoc}

pub slice_fault : (xs : List ℕ) (at n : ℕ) → length xs < at + n → slice xs at n ≡ none
unfolding slice
slice_fault xs at n h = ground arith

-- A piece of a slice.
piece :
    (xs : List ℕ) (at total off size : ℕ)
    → off + size ≤ total
    → take size (drop off (take total (drop at xs))) ≡ take size (drop (at + off) xs)
piece xs at total off size h =
    get_elem?_ext _ _
      (omega (
        arith,
        length-take size (drop off (take total (drop at xs))),
        length-take size (drop (at + off) xs),
        length-drop off (take total (drop at xs)),
        length-take total (drop at xs),
        length-drop at xs,
        length-drop (at + off) xs,
      ))
      (λ i k.
        let below : i < size =
          omega (arith, k, length-take size (drop off (take total (drop at xs)))) in
        get_elem?-take size (drop off (take total (drop at xs))) i below
        ∙ get_elem?-drop off (take total (drop at xs)) i
        ∙ get_elem?-take total (drop at xs) (off + i) (omega (arith, below))
        ∙ get_elem?-drop at xs (off + i)
        ∙ ap (get_elem? xs) (omega arith)
        ∙ sym (get_elem?-take size (drop (at + off) xs) i below ∙ get_elem?-drop (at + off) xs i))

frames : (r k skip : ℕ) → (4 * suc k + r) * skip ≡ k * (4 * skip) + 4 * skip + r * skip
frames r k skip = grind arith

module _ {F : Type 0} (size : ℕ) (conv : List ℕ → F) (src : List ℕ) (skip : ℕ) where
  read_loop_fault :
      (n at : ℕ)
      → length src < at + n * skip + size
      → read_loop size conv (suc n) src at skip ≡ none
  unfolding read_loop
  read_loop_fault zero at h = rw (slice_fault src at size (omega arith)) refl
  read_loop_fault (suc n) at h = elim (Option-cases (slice src at size)) [
    | inl none_left ↦ rw none_left refl
    | inr (bytes, loaded) ↦
        rw (loaded, read_loop_fault n (at + skip) (omega (arith, suc-mul n skip))) refl
  ]

  read_loop-add :
      (a b at : ℕ)
      → read_loop size conv (a + b) src at skip ≡ (
          read_loop size conv a src at skip >>= λ xs.
          read_loop size conv b src (at + a * skip) skip >>= λ ys. some (xs ++ ys))
  unfolding read_loop
  read_loop-add zero b at =
      ap₂ (λ n p. read_loop size conv n src p skip) (omega arith) (omega arith)
      ∙ whole (read_loop size conv b src (at + 0 * skip) skip)
    where
      whole : (m : Option (List F)) → m ≡ (m >>= λ ys. some ([] ++ ys))
      whole none = refl
      whole (some ys) = refl
  read_loop-add (suc a) b at =
      let e : suc a + b ≡ suc (a + b) = omega arith in
      rw e (
        bind_congr (slice src at size) _ _ (λ bytes.
          ap (λ m. m >>= λ rest. some (conv bytes ∷ rest)) (read_loop-add a b (at + skip))
          ∙ more (conv bytes) (read_loop size conv a src (at + skip) skip)
          ∙ bind_congr (read_loop size conv a src (at + skip) skip >>= λ xs. some (conv bytes ∷ xs))
              _ _
              (λ xs.
                ap (λ p. read_loop size conv b src p skip >>= λ ys. some (xs ++ ys))
                  (omega (arith, suc-mul a skip))))
        ∙ sym (bind_assoc (slice src at size) _ _))
    where
      tail :
          (x : F) (xs : List F) (m : Option (List F))
          → ((m >>= λ ys. some (xs ++ ys)) >>= λ rest. some (x ∷ rest))
            ≡ (m >>= λ ys. some (x ∷ (xs ++ ys)))
      tail x xs none = refl
      tail x xs (some ys) = refl

      more :
          (x : F) (m : Option (List F))
          → ((m >>= λ xs.
                read_loop size conv b src (at + skip + a * skip) skip >>= λ ys. some (xs ++ ys))
              >>= λ rest. some (x ∷ rest))
            ≡ ((m >>= λ xs. some (x ∷ xs)) >>= λ xs.
                read_loop size conv b src (at + skip + a * skip) skip >>= λ ys. some (xs ++ ys))
      more x none = refl
      more x (some xs) = tail x xs (read_loop size conv b src (at + skip + a * skip) skip)

  -- Where a group of four is read as one by one, the whole is.
  groups-read_loop :
      (group : List ℕ → ℕ → Option (List F)) (g at : ℕ)
      → ((k : ℕ)
          → k < g
          → group src (at + k * (4 * skip)) ≡ read_loop size conv 4 src (at + k * (4 * skip)) skip)
      → read_groups group g src at skip ≡ read_loop size conv (g * 4) src at skip
  unfolding read_groups
  groups-read_loop group zero at same = unfold read_loop in refl
  groups-read_loop group (suc g) at same =
      let e : suc g * 4 ≡ 4 + g * 4 = omega arith in
      let first : group src at ≡ read_loop size conv 4 src at skip =
        ap (group src) (omega arith)
        ∙ same 0 (omega arith)
        ∙ ap (λ p. read_loop size conv 4 src p skip) (omega arith) in
      let rest = groups-read_loop group g (at + 4 * skip) (λ k h.
        let p : at + 4 * skip + k * (4 * skip) ≡ at + suc k * (4 * skip) =
          omega (arith, suc-mul k (4 * skip)) in
        rw p (same (suc k) (omega arith))) in
      rw (first, rest)
        (sym (ap (λ n. read_loop size conv n src at skip) e ∙ read_loop-add 4 (g * 4) at))

  four :
      (at : ℕ)
      → at + 3 * skip + size ≤ length src
      → read_loop size conv 4 src at skip
        ≡ some (
            conv (take size (drop at src))
            ∷ conv (take size (drop (at + skip) src))
            ∷ conv (take size (drop (at + skip + skip) src))
            ∷ conv (take size (drop (at + skip + skip + skip) src))
            ∷ [])
  unfolding read_loop
  four at h =
      rw
        (
          slice_lem src at size (omega arith),
          slice_lem src (at + skip) size (omega arith),
          slice_lem src (at + skip + skip) size (omega arith),
          slice_lem src (at + skip + skip + skip) size (omega arith),
        )
        refl

  -- The four samples of a block that was loaded in one piece.
  from_block :
      (at total a b c : ℕ)
      → a ≡ skip
      → b ≡ 2 * skip
      → c ≡ 3 * skip
      → 3 * skip + size ≤ total
      → at + total ≤ length src
      → (slice src at total >>= λ bytes. some (
          conv (take size bytes)
          ∷ conv (take size (drop a bytes))
          ∷ conv (take size (drop b bytes))
          ∷ conv (take size (drop c bytes))
          ∷ []))
        ≡ read_loop size conv 4 src at skip
  from_block at total a b c ea eb ec inside fits = rw (slice_lem src at total fits) (
      ap some (
        ap₂ (◌∷◌)
          (ap conv (
            piece src at total 0 size (omega arith)
            ∙ ap (λ p. take size (drop p src)) (omega arith)))
          (ap₂ (◌∷◌)
            (ap conv (
              piece src at total a size (omega arith)
              ∙ ap (λ p. take size (drop p src)) (omega arith)))
            (ap₂ (◌∷◌)
              (ap conv (
                piece src at total b size (omega arith)
                ∙ ap (λ p. take size (drop p src)) (omega arith)))
              (ap (λ x. x ∷ [])
                (ap conv (
                  piece src at total c size (omega arith)
                  ∙ ap (λ p. take size (drop p src)) (omega arith)))))))
      ∙ sym (four at (omega (arith, inside, fits))))

  lanes-read_loop :
      (at : ℕ)
      → (skip ≡ 2 * size → at + 8 * size ≤ length src)
      → load_lanes size conv skip src at ≡ read_loop size conv 4 src at skip
  unfolding load_lanes
  lanes-read_loop at fits = elim (Bool-cases (skip == size)) [
    | inl adjoin ↦
        let eq : skip ≡ size = (==_iff skip size).0 adjoin in
        elim (Bool-cases (leb (at + 4 * size) (length src))) [
          | inl room ↦ rw adjoin (
              from_block at (4 * size) size (2 * size) (3 * size) (sym eq) (omega (arith, eq))
                (omega (arith, eq)) (omega (arith, eq)) (leb→le _ _ room))
          | inr short ↦
              let over = leb→lt _ _ short in
              rw
                (
                  adjoin,
                  slice_fault src at (4 * size) over,
                  read_loop_fault 3 at (omega (arith, eq, over)),
                )
                refl
        ]
    | inr apart ↦ elim (Bool-cases (skip == 2 * size)) [
      | inl twice ↦
          let eq : skip ≡ 2 * size = (==_iff skip (2 * size)).0 twice in
          rw (apart, twice)
            (from_block at (8 * size) (2 * size) (4 * size) (6 * size) (sym eq) (omega (arith, eq))
              (omega (arith, eq)) (omega (arith, eq)) (fits eq))
      | inr strided ↦ rw (apart, strided) refl
    ]
  ]

  -- Groups that read as four rounds of the loop, and the last samples.
  pub unrolled-read_loop :
      (group : List ℕ → ℕ → Option (List F)) (n at : ℕ)
      → ((k : ℕ)
          → k < n / 4
          → group src (at + k * (4 * skip)) ≡ read_loop size conv 4 src (at + k * (4 * skip)) skip)
      → read_unrolled group size conv n src at skip ≡ read_loop size conv n src at skip
  unfolding read_unrolled
  unrolled-read_loop group n at same = rw (groups-read_loop group (n / 4) at same) (
      bind_congr (read_loop size conv (n / 4 * 4) src at skip) _ _ (λ xs.
        ap (λ p. read_loop size conv (n % 4) src p skip >>= λ ys. some (xs ++ ys))
          (by_fours (n / 4) at))
      ∙ sym (read_loop-add (n / 4 * 4) (n % 4) at)
      ∙ ap (λ m. read_loop size conv m src at skip) (omega arith))
    where
      by_fours : (g at : ℕ) → at + g * (4 * skip) ≡ at + g * 4 * skip
      by_fours g at = grind arith

  pub loaded-read_loop :
      (n at : ℕ)
      → (skip ≡ 2 * size → at + n * skip ≤ length src)
      → read_unrolled (load_lanes size conv skip) size conv n src at skip
        ≡ read_loop size conv n src at skip
  loaded-read_loop n at fits =
      unrolled-read_loop (load_lanes size conv skip) n at
        (λ k h. lanes-read_loop (at + k * (4 * skip)) (λ twice. last_block k h (fits twice) twice))
    where
      last_block :
          (k : ℕ)
          → k < n / 4
          → at + n * skip ≤ length src
          → skip ≡ 2 * size
          → at + k * (4 * skip) + 8 * size ≤ length src
      last_block k h room twice =
          let e : n ≡ 4 * suc k + (n - 4 * suc k) = omega (arith, h) in
          omega (arith, twice, room, ap (λ m. m * skip) e ∙ frames (n - 4 * suc k) k skip)
