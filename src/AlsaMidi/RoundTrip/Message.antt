-- ===== src/AlsaMidi/RoundTrip/Message.antt =====
-- One message of each kind, packed and unpacked.
use jack_example_tools.Base.{
  ℕ, ◌+◌, ◌-◌, ◌/◌, ◌≤◌, ◌<◌, ◌≡◌, refl, sym, ap, subst, ◌∙◌, arith, some, List, [], ◌∷◌, ◌++◌,
  length, length-append, get_or,
}
use jack_example_tools.AlsaMidi.Unpack.{
  Unpack, system_need, keep_status, midi_unpack_buf, midi_voice_len,
}
use jack_example_tools.AlsaMidi.Unpack.Taken.{IsUnpack, voice_need_bounds, system_need_bounds}
use jack_example_tools.AlsaMidi.Unpack.Safe.{finish_part}
use jack_example_tools.AlsaMidi.RoundTrip.{note_off, Data}
use jack_example_tools.AlsaMidi.RoundTrip.Feed.{Mid, quiet, last_byte, feed, complete, body}
use jack_example_tools.AlsaMidi.RoundTrip.Sync.{
  voice_len, Sync, Mid-IsUnpack, started, started-Mid, voice_byte, system_byte, realtime_lem,
  keep-voice, keep-system, closed, with_need, end_byte, exclusive_byte,
}

-- The last element of a list apart.
last_apart :
    (xs : List ℕ)
    → 1 ≤ length xs
    → Data xs
    → (ys : List ℕ) × (x : ℕ) × (xs ≡ ys ++ x ∷ [])
      × Data ys
      × (x < 0x80)
      × (length xs ≡ 1 + length ys)
last_apart [] h ok = elim h [ ]
last_apart (x ∷ []) h (low, ok) = ([], x, refl, _, low, refl)
last_apart (x ∷ y ∷ xs) h (low, ok) =
    let (ys, z, e, ok', low', len) = last_apart (y ∷ xs) (omega arith) ok in
    (x ∷ ys, z, ap (◌∷◌ x) e, (low, ok'), low', omega (arith, len))

note_on_len : (s : ℕ) → s / 16 ≡ 9 → voice_len s ≡ 3
note_on_len s e =
    let one : (s - 0x80) / 16 ≡ 1 = omega (arith, e) in ap (λ i. get_or midi_voice_len i 0) one

-- A message unpacked from its bytes `bs`: it is written, and a later status `rs` is kept.
abbrev pub Unpacked : ℕ → ℕ → Unpack → List ℕ → ℕ → List ℕ → Type 0
Unpacked size rs u bs time message =
    (u' : Unpack) × (midi_unpack_buf u bs time
      ≡ some (u', record { time = time; buffer = note_off message } ∷ []))
    × Sync size (record { running_status = rs }) u'

one_more : (n k m : ℕ) → m ≡ 1 + k → 1 + m ≡ n → 2 + 0 + k ≡ n
one_more n k m e h = omega (arith, e, h)

one_less : (n : ℕ) {m : ℕ} → 1 + m ≡ n → 2 ≤ n → 1 ≤ m
one_less n e h = omega arith

module _ {size : ℕ} (time : ℕ) where
  -- The data bytes of a message, at least one.
  every_byte :
      {need : ℕ} (s : ℕ) (xs : List ℕ) (u : Unpack)
      → Mid size need (s ∷ []) u
      → Data xs
      → 1 ≤ length xs
      → 1 + length xs ≡ need
      → 0x80 ≤ s
      → (s / 16 ≡ 9 → need ≡ 3)
      → (t : Unpack) × (midi_unpack_buf u xs time
          ≡ some (keep_status t s, record { time = time; buffer = note_off (s ∷ xs) } ∷ []))
        × (acc : List ℕ) × Mid size need (s ∷ acc) t
  every_byte {need = need} s xs u m ok long len status note =
      let (ys, x, e, oks, lowx, count) = last_apart xs long ok in
      let (t, ran, m') =
        body time s [] ys x u m oks lowx (one_more need _ _ count len) status note in
      (
        t,
        subst
            (λ zs.
              midi_unpack_buf u zs time
              ≡ some (keep_status t s, record { time = time; buffer = note_off (s ∷ zs) } ∷ []))
            (sym e) ran,
        _,
        m',
      )

  -- The data of a voice message behind its status.
  pub voice_bytes :
      (s : ℕ) (xs : List ℕ) (u : Unpack)
      → Mid size (voice_len s) (s ∷ []) u
      → 0x80 ≤ s
      → s < 0xF0
      → Data xs
      → 1 + length xs ≡ voice_len s
      → Unpacked size s u xs time (s ∷ xs)
  voice_bytes s xs u m low high ok len =
      let (two, three) = voice_need_bounds s low high in
      let (t, ran, acc, m') = every_byte s xs u m ok (one_less _ len two) len low (note_on_len s) in
      let m'' = keep-voice s m' low high in
      (
        keep_status t s,
        ran,
        record {
          unpack = Mid-IsUnpack m'' two two;
          size_eq = m''.size_eq;
          status = λ c. (low, high, m'');
        },
      )

  pub voice_whole :
      (s : ℕ) (xs : List ℕ) (u : Unpack)
      → IsUnpack u
      → u.size ≡ size
      → 0x80 ≤ s
      → s < 0xF0
      → Data xs
      → 1 + length xs ≡ voice_len s
      → Unpacked size s u (s ∷ xs) time (s ∷ xs)
  voice_whole s xs u v same low high ok len =
      let (two, three) = voice_need_bounds s low high in
      let m = started-Mid s (voice_len s) v same (omega (arith, three, v.three)) in
      let (u', ran, sync) = voice_bytes s xs (started u s (voice_len s)) m low high ok len in
      (
        u',
        quiet u s xs time (
              voice_byte u time s v low high
              ∙ finish_part (started u s (voice_len s)) time (omega (arith, two)))
            ∙ ran,
        sync,
      )

  pub realtime_byte :
      (rs b : ℕ) (u : Unpack)
      → Sync size (record { running_status = rs }) u
      → 0xF8 ≤ b
      → Unpacked size rs u (b ∷ []) time (b ∷ [])
  realtime_byte rs b u y h = (u, last_byte u b time (realtime_lem u time b y.unpack h), y)

  -- A system message ends the running status.
  ended :
      (s : ℕ) {need : ℕ} {acc : List ℕ} (t : Unpack)
      → Mid size need acc t
      → 0xF0 ≤ s
      → Sync size (record { running_status = 0 }) (keep_status t s)
  ended s t m low =
      let (v, same) = keep-system s m low in
      record { unpack = v; size_eq = same; status = λ c. absurd (c refl) }

  pub system_single :
      (s : ℕ) (u : Unpack)
      → IsUnpack u
      → u.size ≡ size
      → 0xF0 < s
      → s < 0xF7
      → system_need u s ≡ 1
      → Unpacked size 0 u (s ∷ []) time (s ∷ [])
  system_single s u v same low high one =
      let m = started-Mid s 1 v same (omega (arith, v.three)) in
      (
        keep_status (started u s 1) s,
        last_byte u s time (
            system_byte u time s v (omega arith) high
            ∙ rw one (
                complete time s [] (started u s 1) m refl (omega arith)
                  (λ e. absurd (omega (arith, e))))),
        ended s (started u s 1) m (omega arith),
      )

  pub system_bytes :
      (s : ℕ) (xs : List ℕ) (u : Unpack)
      → IsUnpack u
      → u.size ≡ size
      → 0xF0 < s
      → s < 0xF7
      → Data xs
      → 1 ≤ length xs
      → 1 + length xs ≡ system_need u s
      → Unpacked size 0 u (s ∷ xs) time (s ∷ xs)
  system_bytes s xs u v same low high ok long len =
      let need = system_need u s in
      let (one, most) = system_need_bounds u s v.three (omega arith) high in
      let m = started-Mid s need v same (omega arith) in
      let (t, ran, acc, m') =
        every_byte s xs (started u s need) m ok long len (omega arith)
          (λ c. absurd (omega (arith, c))) in
      (
        keep_status t s,
        quiet u s xs time (
              system_byte u time s v (omega arith) high
              ∙ finish_part (started u s need) time (omega arith))
            ∙ ran,
        ended s t m' (omega arith),
      )

  -- A system exclusive message.
  pub sysex :
      (xs : List ℕ) (u : Unpack)
      → IsUnpack u
      → u.size ≡ size
      → Data xs
      → 2 + length xs ≤ size
      → Unpacked size 0 u (0xF0 ∷ xs ++ 0xF7 ∷ []) time (0xF0 ∷ xs ++ 0xF7 ∷ [])
  sysex xs u v same ok room =
      let m = started-Mid 0xF0 size v same (omega arith) in
      let (t, ran, m') =
        feed time 0xF0 [] xs (0xF7 ∷ []) (started u 0xF0 size) m ok (omega arith) in
      let last = with_need m' (omega (arith, room)) in
      (
        keep_status (closed t) 0xF0,
        quiet u 0xF0 (xs ++ 0xF7 ∷ []) time (
              exclusive_byte u time v same
              ∙ finish_part (started u 0xF0 size) time (omega (arith, v.three, same)))
            ∙ ran
            ∙ last_byte t 0xF7 time (
                end_byte t time (omega (arith, m'.pos_eq, m'.size_eq))
                  (omega (arith, m'.size_eq, m'.data_eq))
                ∙ complete time 0xF0 (xs ++ 0xF7 ∷ []) (closed t) last
                    (omega (arith, m'.pos_eq, length-append xs (0xF7 ∷ []))) (omega arith)
                    (λ e. absurd (omega (arith, e)))),
        ended 0xF0 (closed t) last (omega arith),
      )
