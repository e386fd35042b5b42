-- ===== src/AlsaMidi/RoundTrip.antt =====
-- Events packed by midi_pack.h and unpacked by midi_unpack.h, both of tools/alsa_midi.
pub mod Feed
pub mod Sync
pub mod Message
pub mod Whole
use jack_example_tools.Base.{
  ℕ, ◌+◌, ◌-◌, ◌*◌, ◌/◌, ◌%◌, ◌≤◌, ◌<◌, ◌≡◌, ◌≢◌, ◌&&◌, Option, some, List, [], ◌∷◌, ◌++◌, All,
  ◌==◌, if◌then◌else◌, ◌>>=◌, length, get_or,
}
use jack_example_tools.Netjack.Midi.{MidiEvent}
use jack_example_tools.AlsaMidi.Unpack.{Unpack, midi_unpack_buf, midi_voice_len, midi_system_len}
use jack_example_tools.AlsaMidi.Pack.{Pack, midi_pack_event}

-- A note on of velocity 0 means a note off.
abbrev pub note_off : List ℕ → List ℕ
note_off xs =
    if (get_or xs 0 0 / 16 == 9) && (get_or xs 2 0 == 0)
    then (0x80 + get_or xs 0 0 % 16) ∷ get_or xs 1 0 ∷ 0x40 ∷ []
    else xs

abbrev pub heard : MidiEvent → MidiEvent
heard e = record e { buffer = note_off e.buffer }

abbrev pub Data : List ℕ → Type 0
Data = All (λ b. b < 0x80)

-- The complete messages of MIDI, for an array of `size` bytes.
pub data IsMessage (size : ℕ) : List ℕ → Type 0 where
  voice :
      (s : ℕ) (xs : List ℕ)
      → 0x80 ≤ s
      → s < 0xF0
      → Data xs
      → 1 + length xs ≡ get_or midi_voice_len ((s - 0x80) / 16) 0
      → IsMessage size (s ∷ xs)
  system :
      (s : ℕ) (xs : List ℕ)
      → 0xF0 < s
      → s < 0xF7
      → Data xs
      → 1 + length xs ≡ get_or midi_system_len (s - 0xF0) 0
      → IsMessage size (s ∷ xs)
  exclusive :
      (xs : List ℕ) → Data xs → 2 + length xs ≤ size → IsMessage size (0xF0 ∷ xs ++ 0xF7 ∷ [])
  realtime : (b : ℕ) → 0xF8 ≤ b → IsMessage size (b ∷ [])

-- Each event is packed, and what is left of it unpacked at its time.
unfoldable pub relay : Pack → Unpack → List MidiEvent → Option (List MidiEvent)
relay p u [] = some []
relay p u (e ∷ es) = do
  let r = midi_pack_event p e
  got ← midi_unpack_buf u r.1.buffer e.time
  rest ← relay r.0 got.0 es
  some (got.1 ++ rest)
