-- ===== src/Netjack/Midi/RoundTrip.antt =====
-- What `encode_midi_buffer` writes, `decode_midi_buffer` reads.
use jack_example_tools.Base.{
  ℕ, zero, suc, ◌+◌, ◌*◌, ◌^◌, ◌≤◌, ◌<◌, ◌≡◌, refl, ◌∙◌, inl, inr, arith, true, false, some, List,
  [], ◌∷◌, All, ltb, ltb→lt, ◌==◌, Bool-cases, if◌then◌else◌, length,
}
use jack_example_tools.Machine.{add_u32, sub_u32}
use jack_example_tools.Netjack.Midi.{
  MidiEvent, data_quads, put_word, get_word, slice, put_event, encode_from, encode_midi_buffer,
  decode_from, decode_midi_buffer,
}
use jack_example_tools.Netjack.Midi.Words.{
  SameBelow, get_word_same, slice_same, put_word-Wrote, get_word_written, data_quads_room,
  data_quads_max, HasEvent, put_event-HasEvent,
}

-- Times and sizes are 32-bit words.
abbrev pub IsEvent : MidiEvent → Type 0
IsEvent e = (e.time < 2 ^ 32) × (length e.buffer < 2 ^ 32)

-- The events that fit: each takes three words and its data, and one word is left for the end mark.
pub fitting : ℕ → ℕ → List MidiEvent → List MidiEvent
fitting written size [] = []
fitting written size (e ∷ es) =
    let next = written + (3 + data_quads (length e.buffer)) in
    if ltb (next + 1) size then e ∷ fitting next size es else []

-- The rounds of `decode_from`.
module _ (fuel : ℕ) (buf : List ℕ) (i size : ℕ) where
  decode_stop : ltb i (sub_u32 size 3) ≡ false → decode_from (suc fuel) buf i size ≡ some []
  unfolding decode_from
  decode_stop t = rw (t, decode_from)

  decode_mark :
      ltb i (sub_u32 size 3) ≡ true
      → get_word buf i ≡ some 0
      → decode_from (suc fuel) buf i size ≡ some []
  unfolding decode_from
  decode_mark t e = rw (t, decode_from) (rw (e, decode_from))

  decode_event :
      {payload_size time bytes : ℕ} {buffer : List ℕ} {rest : List MidiEvent}
      → ltb i (sub_u32 size 3) ≡ true
      → get_word buf i ≡ some payload_size
      → (payload_size == 0) ≡ false
      → get_word buf (i + 1) ≡ some time
      → get_word buf (i + 2) ≡ some bytes
      → slice buf (4 * (i + 3)) bytes ≡ some buffer
      → decode_from fuel buf (i + (3 + data_quads bytes)) size ≡ some rest
      → decode_from (suc fuel) buf i size ≡ some (record { time = time; buffer = buffer } ∷ rest)
  unfolding decode_from
  decode_event t e n e₁ e₂ s r = rw (t, decode_from) (rw (e, decode_from) (rw (n, e₁, e₂, s, r)))

module _ (buf : List ℕ) (written size : ℕ) (e : MidiEvent) (es : List MidiEvent) where
  encode_event :
      {buf' : List ℕ}
      → ltb (add_u32 written (add_u32 3 (data_quads (length e.buffer)))) (sub_u32 size 1) ≡ true
      → put_event buf written (add_u32 3 (data_quads (length e.buffer))) e ≡ some buf'
      → encode_from buf written size (e ∷ es)
        ≡ encode_from buf' (add_u32 written (add_u32 3 (data_quads (length e.buffer)))) size es
  unfolding encode_from
  encode_event t p = rw (t, encode_from) (rw p)

  encode_full :
      ltb (add_u32 written (add_u32 3 (data_quads (length e.buffer)))) (sub_u32 size 1) ≡ false
      → encode_from buf written size (e ∷ es) ≡ put_word buf written 0
  unfolding encode_from
  encode_full t = rw (t, encode_from)

-- A buffer that decodes to `events` from word `written` on, and agrees with `buf` before it.
record Encoded (buf : List ℕ) (written size : ℕ) (events : List MidiEvent) (buf' : List ℕ)
    : Type 0 where
  same_size : length buf' ≡ length buf
  before : SameBelow (4 * written) buf' buf
  decodes : (fuel : ℕ) → size < fuel + written → decode_from fuel buf' written size ≡ some events

module _ (size : ℕ) (positive : 0 < size) (high : size < 2 ^ 31) where
  mark-Encoded :
      (buf : List ℕ) (written : ℕ)
      → length buf ≡ 4 * size
      → written < size
      → (buf' : List ℕ) × (put_word buf written 0 ≡ some buf') × Encoded buf written size [] buf'
  mark-Encoded buf written room h =
      let (buf', e, w) = put_word-Wrote buf written 0 (omega arith) in
      let mark = get_word_written buf buf' written 0 (omega arith) w in
      (buf', e, record { same_size = w.size; before = w.before; decodes = decodes buf' mark })
    where
      decodes :
          (buf' : List ℕ)
          → get_word buf' written ≡ some 0
          → (fuel : ℕ) → size < fuel + written
          → decode_from fuel buf' written size ≡ some []
      decodes buf' mark zero f = absurd (omega arith)
      decodes buf' mark (suc fuel) f = elim (Bool-cases (ltb written (sub_u32 size 3))) [
        | inl t ↦ decode_mark fuel buf' written size t mark
        | inr t ↦ decode_stop fuel buf' written size t
      ]

  -- The code's 32-bit sums do not wrap.
  payload_lem :
      (e : MidiEvent)
      → IsEvent e
      → add_u32 3 (data_quads (length e.buffer)) ≡ 3 + data_quads (length e.buffer)
  payload_lem e ok = omega (arith, data_quads_max (length e.buffer) ok.1)

  fits_lem :
      (written : ℕ) (e : MidiEvent)
      → IsEvent e
      → written < size
      → ltb (add_u32 written (add_u32 3 (data_quads (length e.buffer)))) (sub_u32 size 1)
        ≡ ltb (written + (3 + data_quads (length e.buffer)) + 1) size
  fits_lem written e ok h =
      rw (payload_lem e ok) (ground (arith, data_quads_max (length e.buffer) ok.1))

  -- One event in front of an encoding.
  cons-Encoded :
      (buf buf₁ buf₂ : List ℕ) (written : ℕ) (e : MidiEvent) (es : List MidiEvent)
      → IsEvent e
      → length buf ≡ 4 * size
      → written + (3 + data_quads (length e.buffer)) + 1 < size
      → HasEvent buf written (3 + data_quads (length e.buffer)) e buf₁
      → Encoded buf₁ (written + (3 + data_quads (length e.buffer))) size es buf₂
      → Encoded buf written size (e ∷ es) buf₂
  cons-Encoded buf buf₁ buf₂ written e es ok room h w r = record {
    same_size = r.same_size ∙ w.size;
    before = λ j k. r.before j (omega arith) ∙ w.before j k;
    decodes = decodes;
  }
    where
      next : ℕ
      next = written + (3 + data_quads (length e.buffer))

      quads : length e.buffer ≤ 4 * data_quads (length e.buffer)
      quads = data_quads_room (length e.buffer) ok.1

      decodes :
          (fuel : ℕ) → size < fuel + written → decode_from fuel buf₂ written size ≡ some (e ∷ es)
      decodes zero f = absurd (omega arith)
      decodes (suc fuel) f =
          decode_event fuel buf₂ written size (ground arith)
            (get_word_same next written buf₂ buf₁ r.before (omega arith) ∙ w.payload) (ground arith)
            (get_word_same next (written + 1) buf₂ buf₁ r.before (omega arith) ∙ w.time)
            (get_word_same next (written + 2) buf₂ buf₁ r.before (omega arith) ∙ w.bytes)
            (slice_same buf₂ e.buffer (4 * (written + 3)) (length e.buffer) refl
              (omega (arith, r.same_size, w.size, quads))
              (λ j k. r.before (4 * (written + 3) + j) (omega (arith, quads)) ∙ w.inside j k))
            (r.decodes fuel (omega arith))

  encode_from-Encoded :
      (buf : List ℕ) (written : ℕ) (events : List MidiEvent)
      → length buf ≡ 4 * size
      → written < size
      → All IsEvent events
      → (buf' : List ℕ) × (encode_from buf written size events ≡ some buf')
        × Encoded buf written size (fitting written size events) buf'
  unfolding fitting
  encode_from-Encoded buf written [] room h ok =
      unfold encode_from in mark-Encoded buf written room h
  encode_from-Encoded buf written (e ∷ es) room h (ok, oks) =
      let p = 3 + data_quads (length e.buffer) in
      elim (Bool-cases (ltb (written + p + 1) size)) [
        | inr full ↦
            let (buf', ran, r) = mark-Encoded buf written room h in
            (
              buf',
              encode_full buf written size e es (fits_lem written e ok h ∙ full) ∙ ran,
              rw full r,
            )
        | inl more ↦
            let fits : written + p + 1 < size = ltb→lt _ _ more in
            let quads = data_quads_room (length e.buffer) ok.1 in
            let most = data_quads_max (length e.buffer) ok.1 in
            let (buf₁, put, w) =
              put_event-HasEvent buf written p e (omega arith) ok.0 ok.1 (omega arith) in
            let (buf₂, ran, r) =
              encode_from-Encoded buf₁ (written + p) es (w.size ∙ room) (omega arith) oks in
            let next : add_u32 written p ≡ written + p = omega arith in
            (
              buf₂,
              encode_event buf written size e es {buf' = buf₁} (fits_lem written e ok h ∙ more)
                    (rw (payload_lem e ok) put)
                  ∙ rw (payload_lem e ok, next) ran,
              rw more (
                  cons-Encoded buf buf₁ buf₂ written e (fitting (written + p) size es) ok room fits
                    w r),
            )
      ]

-- Encoding never writes outside a buffer of `size` words, and decoding what was written gives back
-- the events, time stamps and bytes alike, up to the first event for which there was no room.
pub decode-encode :
    (buf : List ℕ) (size : ℕ) (events : List MidiEvent)
    → 0 < size
    → size < 2 ^ 31
    → length buf ≡ 4 * size
    → All IsEvent events
    → (buf' : List ℕ) × (encode_midi_buffer buf size events ≡ some buf')
      × (length buf' ≡ length buf)
      × (decode_midi_buffer buf' size ≡ some (fitting 0 size events))
unfolding encode_midi_buffer decode_midi_buffer
decode-encode buf size events positive high room ok =
    let (buf', ran, r) = encode_from-Encoded size positive high buf 0 events room positive ok in
    (buf', ran, r.same_size, r.decodes (size + 1) (omega arith))
