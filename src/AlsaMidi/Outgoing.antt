-- ===== src/AlsaMidi/Outgoing.antt =====
-- `a2j_process_outgoing` of tools/alsa_midi/alsa_midi.c: the events of a JACK port are queued for the
-- ALSA output thread in the two parts of the free space of a ring buffer.
use jack_example_tools.Base.{
  ℕ, zero, suc, ◌+◌, ◌-◌, ◌*◌, ◌/◌, ◌≤◌, ◌≡◌, refl, ap, sym, ◌∙◌, arith, Bool-cases, inl, inr, true,
  false, List, [], ◌∷◌, ◌++◌, leb, ltb, ltb→lt, ltb→le, ◌<◌, append-nil, ◌==◌, if◌then◌else◌,
  length, take,
}
use jack_example_tools.Machine.{sub_size}
use jack_example_tools.Netjack.Midi.{MidiEvent}

-- `MAX_JACKMIDI_EV_SIZE`
abbrev pub max_ev_size : ℕ
max_ev_size = 64

-- One of the two loops: the events queued, and those that are left when `limit` are written.
unfoldable pub fill : ℕ → ℕ → List MidiEvent → List MidiEvent × List MidiEvent
fill limit written [] = ([], [])
fill limit written (e ∷ es) = elim (ltb written limit) [
  | false ↦ ([], e ∷ es)
  | true ↦ elim (leb (length e.buffer) max_ev_size) [
    | true ↦ let r = fill limit (written + 1) es in (e ∷ r.0, r.1)
    | false ↦ fill limit written es
  ]
]

-- The events queued, and the number of bytes by which the ring buffer advances. `event_size` is
-- `sizeof (struct a2j_delivery_event)`; `len0` and `len1` are the lengths of the two parts.
unfoldable pub use_second_part : ℕ → ℕ → ℕ → List MidiEvent × List MidiEvent → List MidiEvent × ℕ
use_second_part event_size len0 len1 (queued, []) = (queued, length queued * event_size)
use_second_part event_size len0 len1 (queued, e ∷ es) =
    let gap = if len0 == 0 then 0 else sub_size len0 (length queued * event_size) in
    let q = fill (len0 / event_size + len1 / event_size) (length queued) (e ∷ es) in
    (queued ++ q.0, (length queued + length q.0) * event_size + gap)

unfoldable pub a2j_process_outgoing : ℕ → ℕ → ℕ → List MidiEvent → List MidiEvent × ℕ
a2j_process_outgoing event_size len0 len1 events =
    use_second_part event_size len0 len1 (fill (len0 / event_size) 0 events)

-- The events that are not too long.
abbrev pub fitting : List MidiEvent → List MidiEvent
fitting [] = []
fitting (e ∷ es) = if leb (length e.buffer) max_ev_size then e ∷ fitting es else fitting es

fill_stop :
    (limit written : ℕ) (es : List MidiEvent) → limit ≤ written → fill limit written es ≡ ([], es)
unfolding fill
fill_stop limit written [] h = refl
fill_stop limit written (e ∷ es) h =
    let full : ltb written limit ≡ false = ground arith in rw (full, fill) refl

module _ (limit written : ℕ) (e : MidiEvent) (es : List MidiEvent) (h : written < limit) where
  room : ltb written limit ≡ true
  room = ground arith

  fill_long :
      leb (length e.buffer) max_ev_size ≡ false
      → fill limit written (e ∷ es) ≡ fill limit written es
  unfolding fill
  fill_long long = rw (room, fill) (rw (long, fill) refl)

  fill_fit :
      leb (length e.buffer) max_ev_size ≡ true
      → let r = fill limit (written + 1) es in fill limit written (e ∷ es) ≡ (e ∷ r.0, r.1)
  unfolding fill
  fill_fit fits = rw (room, fill) (rw (fits, fill) refl)

take_more :
    (n m : ℕ) (e : MidiEvent) (es : List MidiEvent) → n ≡ suc m → take n (e ∷ es) ≡ e ∷ take m es
take_more n m e es h = rw h refl

take-nil : (n : ℕ) (es : List MidiEvent) → n ≡ 0 → [] ≡ take n es
take-nil n es h = rw h refl

take_none : (n : ℕ) → [] ≡ take {A = MidiEvent} n []
take_none zero = refl
take_none (suc n) = refl

fill-take :
    (limit written : ℕ) (es : List MidiEvent)
    → (fill limit written es).0 ≡ take (limit - written) (fitting es)
fill-take limit written [] = unfold fill in take_none (limit - written)
fill-take limit written (e ∷ es) = elim (Bool-cases (ltb written limit)) [
  | inr full ↦
      rw (fill_stop limit written (e ∷ es) (ltb→le _ _ full))
        (take-nil _ (fitting (e ∷ es)) (ground arith))
  | inl part ↦
      let h = ltb→lt _ _ part in
      elim (Bool-cases (leb (length e.buffer) max_ev_size)) [
        | inl fits ↦
            rw (fill_fit limit written e es h fits, fits)
              (ap (◌∷◌ e) (fill-take limit (written + 1) es)
                ∙ sym (
                    take_more (limit - written) (limit - (written + 1)) e (fitting es)
                      (omega arith)))
        | inr long ↦ rw (fill_long limit written e es h long, long) (fill-take limit written es)
      ]
]

-- The second loop continues where the first one stopped.
fill-fill :
    (limit more written : ℕ) (es : List MidiEvent)
    → written ≤ limit
    → let r = fill limit written es in
      (r.0 ++ (fill (limit + more) (written + length r.0) r.1).0)
      ≡ take (limit + more - written) (fitting es)
fill-fill limit more written [] h = unfold fill in take_none (limit + more - written)
fill-fill limit more written (e ∷ es) h = elim (Bool-cases (ltb written limit)) [
  | inr full ↦
      let zero_more : written + 0 ≡ written = omega arith in
      rw (fill_stop limit written (e ∷ es) (ltb→le _ _ full), zero_more)
        (fill-take (limit + more) written (e ∷ es))
  | inl part ↦
      let k = ltb→lt _ _ part in
      elim (Bool-cases (leb (length e.buffer) max_ev_size)) [
        | inl fits ↦
            rw (fill_fit limit written e es k fits, fits)
              (ap (◌∷◌ e) (
                  ap
                    (λ n.
                      (fill limit (written + 1) es).0
                      ++ (fill (limit + more) n (fill limit (written + 1) es).1).0)
                    (omega arith)
                  ∙ fill-fill limit more (written + 1) es (omega (arith, k)))
                ∙ sym (
                    take_more (limit + more - written) (limit + more - (written + 1)) e (fitting es)
                      (omega (arith, k))))
        | inr long ↦
            rw (fill_long limit written e es k long, long) (fill-fill limit more written es h)
      ]
]

second_part_queued :
    (event_size len0 len1 : ℕ) (r : List MidiEvent × List MidiEvent)
    → (use_second_part event_size len0 len1 r).0
      ≡ r.0 ++ (fill (len0 / event_size + len1 / event_size) (length r.0) r.1).0
unfolding use_second_part fill
second_part_queued event_size len0 len1 (queued, []) = sym (append-nil queued)
second_part_queued event_size len0 len1 (queued, e ∷ es) = refl

-- The events queued for output are those of at most 64 bytes, in order, as many as the two parts of
-- the free space hold.
pub process_outgoing-take :
    (event_size len0 len1 : ℕ) (events : List MidiEvent)
    → (a2j_process_outgoing event_size len0 len1 events).0
      ≡ take (len0 / event_size + len1 / event_size) (fitting events)
unfolding a2j_process_outgoing
process_outgoing-take event_size len0 len1 events =
    let limit = len0 / event_size in
    let more = len1 / event_size in
    let r = fill limit 0 events in
    second_part_queued event_size len0 len1 r
    ∙ ap (λ n. r.0 ++ (fill (limit + more) n r.1).0) (omega arith)
    ∙ fill-fill limit more 0 events (omega arith)
    ∙ ap (λ n. take n (fitting events)) (omega arith)
