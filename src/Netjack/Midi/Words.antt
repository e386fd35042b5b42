-- ===== src/Netjack/Midi/Words.antt =====
-- Words and ranges read back from a buffer after they were written, and after later writes.
use jack_example_tools.Base.{
  ℕ, ◌+◌, ◌*◌, ◌^◌, ◌≤◌, ◌<◌, ◌≡◌, refl, ap, sym, ◌∙◌, arith, some, List, length, take, drop,
  get_elem?, length-take, length-drop, get_elem?-take, get_elem?-drop, get_elem?_ext,
}
use jack_example_tools.Bytes.{splice, memcpy, net32}
use jack_example_tools.Bytes.Laws.{
  length-splice, get_elem?-splice_before, get_elem?-splice_in, memcpy_lem, read32-net32,
  read32_congr,
}
use jack_example_tools.Netjack.Midi.{MidiEvent, put_word, get_word, slice, put_event, data_quads}

-- Two buffers agree below an offset.
abbrev pub SameBelow : ℕ → List ℕ → List ℕ → Type 0
SameBelow n xs ys = (j : ℕ) → j < n → get_elem? xs j ≡ get_elem? ys j

pub get_word_same :
    (n i : ℕ) (xs ys : List ℕ) → SameBelow (4 * n) xs ys → i < n → get_word xs i ≡ get_word ys i
unfolding get_word
get_word_same n i xs ys same h = read32_congr xs ys (4 * i) (λ j a b. same j (omega arith))

-- A range that was written is read back.
pub slice_same :
    (buf src : List ℕ) (off n : ℕ)
    → n ≡ length src
    → off + length src ≤ length buf
    → ((j : ℕ) → j < length src → get_elem? buf (off + j) ≡ get_elem? src j)
    → slice buf off n ≡ some src
unfolding slice
slice_same buf src off n e fits same = rw e (
    ground (
      arith,
      get_elem?_ext (take (length src) (drop off buf)) src size λ j h.
          get_elem?-take (length src) (drop off buf) j (omega (arith, size))
          ∙ get_elem?-drop off buf j
          ∙ same j (omega (arith, size)),
    ))
  where
    size : length (take (length src) (drop off buf)) ≡ length src
    size = omega (arith, length-take (length src) (drop off buf), length-drop off buf)

length-net32 : (w : ℕ) → length (net32 w) ≡ 4
unfolding net32
length-net32 w = refl

-- The state of a buffer after one word or range was written at an offset.
pub record Wrote (buf : List ℕ) (off : ℕ) (src : List ℕ) (buf' : List ℕ) : Type 0 where
  pub size : length buf' ≡ length buf
  pub before : SameBelow off buf' buf
  pub inside : (j : ℕ) → j < length src → get_elem? buf' (off + j) ≡ get_elem? src j

pub memcpy-Wrote :
    (buf : List ℕ) (off : ℕ) (src : List ℕ) (n : ℕ)
    → n ≡ length src
    → off + length src ≤ length buf
    → (buf' : List ℕ) × (memcpy buf off src n ≡ some buf') × Wrote buf off src buf'
memcpy-Wrote buf off src n e fits =
    let whole : take (length src) src ≡ src =
      get_elem?_ext (take (length src) src) src (omega (arith, length-take (length src) src))
        (λ j h. get_elem?-take (length src) src j (omega (arith, length-take (length src) src))) in
    (
      splice buf off src,
      rw e (
          memcpy_lem buf off src (length src) fits (omega arith)
          ∙ ap (λ s. some (splice buf off s)) whole),
      record {
        size = length-splice buf off src fits;
        before = λ j h. get_elem?-splice_before buf off src fits j h;
        inside = λ j h.
            get_elem?-splice_in buf off src fits (off + j) (omega arith) (omega arith)
            ∙ ap (get_elem? src) (omega arith);
      },
    )

pub put_word-Wrote :
    (buf : List ℕ) (i w : ℕ)
    → 4 * i + 4 ≤ length buf
    → (buf' : List ℕ) × (put_word buf i w ≡ some buf') × Wrote buf (4 * i) (net32 w) buf'
unfolding put_word
put_word-Wrote buf i w fits =
    memcpy-Wrote buf (4 * i) (net32 w) 4 (sym (length-net32 w)) (omega (arith, length-net32 w))

pub get_word_written :
    (buf buf' : List ℕ) (i w : ℕ)
    → w < 2 ^ 32
    → Wrote buf (4 * i) (net32 w) buf'
    → get_word buf' i ≡ some w
unfolding get_word
get_word_written buf buf' i w h wr =
    let z : 4 * i + 0 ≡ 4 * i = omega arith in
    read32-net32 buf' (4 * i) w h (rw z at (wr.inside 0 (omega (arith, length-net32 w))))
      (wr.inside 1 (omega (arith, length-net32 w))) (wr.inside 2 (omega (arith, length-net32 w)))
      (wr.inside 3 (omega (arith, length-net32 w)))

pub data_quads_room : (n : ℕ) → n < 2 ^ 32 → n ≤ 4 * data_quads n
unfolding data_quads
data_quads_room n h = omega arith

pub data_quads_max : (n : ℕ) → n < 2 ^ 32 → data_quads n ≤ 2 ^ 30
unfolding data_quads
data_quads_max n h = omega arith

-- A buffer with one event at word `written`.
pub record HasEvent (buf : List ℕ) (written payload_size : ℕ) (e : MidiEvent) (buf' : List ℕ)
    : Type 0 where
  pub size : length buf' ≡ length buf
  pub before : SameBelow (4 * written) buf' buf
  pub payload : get_word buf' written ≡ some payload_size
  pub time : get_word buf' (written + 1) ≡ some e.time
  pub bytes : get_word buf' (written + 2) ≡ some (length e.buffer)
  pub inside :
      (j : ℕ) → j < length e.buffer → get_elem? buf' (4 * (written + 3) + j) ≡ get_elem? e.buffer j

pub put_event-HasEvent :
    (buf : List ℕ) (written payload_size : ℕ) (e : MidiEvent)
    → payload_size < 2 ^ 32
    → e.time < 2 ^ 32
    → length e.buffer < 2 ^ 32
    → 4 * (written + 3) + length e.buffer ≤ length buf
    → (buf' : List ℕ) × (put_event buf written payload_size e ≡ some buf')
      × HasEvent buf written payload_size e buf'
unfolding put_event
put_event-HasEvent buf written payload_size e hp ht hb fits =
    let (b₁, e₁, w₁) = put_word-Wrote buf written payload_size (omega arith) in
    let (b₂, e₂, w₂) = put_word-Wrote b₁ (written + 1) e.time (omega (arith, w₁.size)) in
    let (b₃, e₃, w₃) =
      put_word-Wrote b₂ (written + 2) (length e.buffer) (omega (arith, w₁.size, w₂.size)) in
    let (b₄, e₄, w₄) =
      memcpy-Wrote b₃ (4 * (written + 3)) e.buffer (length e.buffer) refl
        (omega (arith, w₁.size, w₂.size, w₃.size)) in
    let s₃ : SameBelow (4 * (written + 2)) b₄ b₂ =
      λ j h. w₄.before j (omega arith) ∙ w₃.before j h in
    let s₂ : SameBelow (4 * (written + 1)) b₄ b₁ = λ j h. s₃ j (omega arith) ∙ w₂.before j h in
    (
      b₄,
      rw (e₁, e₂, e₃, e₄),
      record {
        size = w₄.size ∙ w₃.size ∙ w₂.size ∙ w₁.size;
        before = λ j h. s₂ j (omega arith) ∙ w₁.before j h;
        payload =
            get_word_same (written + 1) written b₄ b₁ s₂ (omega arith)
            ∙ get_word_written buf b₁ written payload_size hp w₁;
        time =
            get_word_same (written + 2) (written + 1) b₄ b₂ s₃ (omega arith)
            ∙ get_word_written b₁ b₂ (written + 1) e.time ht w₂;
        bytes =
            get_word_same (written + 3) (written + 2) b₄ b₃ w₄.before (omega arith)
            ∙ get_word_written b₂ b₃ (written + 2) (length e.buffer) hb w₃;
        inside = w₄.inside;
      },
    )
