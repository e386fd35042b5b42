-- ===== src/AlsaMidi/Pack.antt =====
-- tools/alsa_midi/midi_pack.h: a voice status that repeats the one before it is left out.
use jack_example_tools.Base.{ℕ, List, [], ◌∷◌, ◌&&◌, leb, ltb, ◌==◌, if◌then◌else◌}
use jack_example_tools.Netjack.Midi.{MidiEvent}

-- `midi_pack_t`
pub record Pack : Type 0 where
  pub running_status : ℕ

unfoldable pub midi_pack_reset : Pack → Pack
midi_pack_reset p = record p { running_status = 0 }

-- The event without its first byte.
unfoldable pub without_status : MidiEvent → List ℕ → MidiEvent
without_status e rest = record e { buffer = rest }

-- An event of no bytes, whose first byte the source reads all the same, is left as it is.
unfoldable pub midi_pack_event : Pack → MidiEvent → Pack × MidiEvent
midi_pack_event p e = elim (e.buffer) [
  | [] ↦ (p, e)
  | first ∷ rest ↦
      if leb 0x80 first && ltb first 0xF0
      then (if first == p.running_status
          then (p, without_status e rest)
          else (record p { running_status = first }, e))
      else (if ltb first 0xF8 then (record p { running_status = 0 }, e) else (p, e))
]
