-- ===== src/Bytes/Laws.antt =====
-- Reads behind `splice` and `memcpy`, and the round trip of the network words.
use jack_example_tools.Base.{
  ℕ, ◌+◌, ◌-◌, ◌^◌, ◌≤◌, ◌<◌, ◌≡◌, ap, ◌∙◌, none, some, List, ◌++◌, arith, length, get_elem?, take,
  drop, length-append, length-take, length-drop, get_elem?-append_left, get_elem?-append_right,
  get_elem?-take, get_elem?-drop,
}
use jack_example_tools.Bytes.{splice, memcpy, net32, read32}

module _ (dst : List ℕ) (off : ℕ) (src : List ℕ) (fits : off + length src ≤ length dst) where
  pub length-splice : length (splice dst off src) ≡ length dst
  unfolding splice
  length-splice = omega (
    arith,
    length-append (take off dst) (src ++ drop (off + length src) dst),
    length-append src (drop (off + length src) dst),
    length-take off dst,
    length-drop (off + length src) dst,
  )

  pub get_elem?-splice_before :
      (i : ℕ) → i < off → get_elem? (splice dst off src) i ≡ get_elem? dst i
  unfolding splice
  get_elem?-splice_before i h =
      get_elem?-append_left (take off dst) _ i (omega (arith, length-take off dst))
      ∙ get_elem?-take off dst i h

  skip_front :
      (i : ℕ)
      → off ≤ i
      → get_elem? (splice dst off src) i ≡ get_elem? (src ++ drop (off + length src) dst) (i - off)
  unfolding splice
  skip_front i h =
      get_elem?-append_right (take off dst) _ i (omega (arith, length-take off dst))
      ∙ ap (get_elem? (src ++ drop (off + length src) dst)) (omega (arith, length-take off dst))

  pub get_elem?-splice_in :
      (i : ℕ)
      → off ≤ i
      → i < off + length src
      → get_elem? (splice dst off src) i ≡ get_elem? src (i - off)
  get_elem?-splice_in i h k = skip_front i h ∙ get_elem?-append_left src _ (i - off) (omega arith)

  pub get_elem?-splice_after :
      (i : ℕ) → off + length src ≤ i → get_elem? (splice dst off src) i ≡ get_elem? dst i
  get_elem?-splice_after i h =
      skip_front i (omega arith)
      ∙ get_elem?-append_right src _ (i - off) (omega arith)
      ∙ get_elem?-drop (off + length src) dst (i - off - length src)
      ∙ ap (get_elem? dst) (omega arith)

pub memcpy_lem :
    (dst : List ℕ) (off : ℕ) (src : List ℕ) (n : ℕ)
    → off + n ≤ length dst
    → n ≤ length src
    → memcpy dst off src n ≡ some (splice dst off (take n src))
unfolding memcpy
memcpy_lem dst off src n h k = ground arith

pub memcpy_fault :
    (dst : List ℕ) (off : ℕ) (src : List ℕ) (n : ℕ)
    → length dst < off + n
    → memcpy dst off src n ≡ none
unfolding memcpy
memcpy_fault dst off src n h = ground arith

-- A word is read back from the four bytes that `net32` spells.
pub read32-net32 :
    (xs : List ℕ) (off w : ℕ)
    → w < 2 ^ 32
    → get_elem? xs off ≡ get_elem? (net32 w) 0
    → get_elem? xs (off + 1) ≡ get_elem? (net32 w) 1
    → get_elem? xs (off + 2) ≡ get_elem? (net32 w) 2
    → get_elem? xs (off + 3) ≡ get_elem? (net32 w) 3
    → read32 xs off ≡ some w
unfolding read32 net32
read32-net32 xs off w h p₀ p₁ p₂ p₃ = rw (p₀, p₁, p₂, p₃) (ap some (omega arith))

-- A word read does not see a change elsewhere.
pub read32_congr :
    (xs ys : List ℕ) (off : ℕ)
    → ((i : ℕ) → off ≤ i → i < off + 4 → get_elem? xs i ≡ get_elem? ys i)
    → read32 xs off ≡ read32 ys off
unfolding read32
read32_congr xs ys off same = rw (
  same off (omega arith) (omega arith),
  same (off + 1) (omega arith) (omega arith),
  same (off + 2) (omega arith) (omega arith),
  same (off + 3) (omega arith) (omega arith),
)
