-- ===== src/AlsaMidi/Tests.antt =====
-- The theorems on MIDI byte streams at a note on, a note off by running status, a clock and a system
-- exclusive message.
mod Ports
use jack_example_tools.Base.{
  ℕ, ◌≡◌, refl, arith, List, [], ◌∷◌, map, take, ◌/◌, ◌+◌, Option, some, All, replicate,
  length-replicate,
}
use jack_example_tools.Netjack.Midi.{MidiEvent}
use jack_example_tools.AlsaMidi.Unpack.{Unpack, midi_unpack_buf, midi_unpack_init}
use jack_example_tools.AlsaMidi.Unpack.Taken.{IsUnpack}
use jack_example_tools.AlsaMidi.Unpack.Safe.{HasStatus, midi_unpack_buf-IsUnpack}
use jack_example_tools.AlsaMidi.Pack.{Pack, midi_pack_reset}
use jack_example_tools.AlsaMidi.RoundTrip.{IsMessage, voice, exclusive, realtime, relay, heard}
use jack_example_tools.AlsaMidi.RoundTrip.Whole.{relay-messages}
use jack_example_tools.AlsaMidi.Outgoing.{a2j_process_outgoing, fitting, process_outgoing-take}

-- An array of three bytes, the first of them a status.
abbrev small : Unpack
small = record { pos = 1; need = 3; size = 3; msg_data = 0x90 ∷ 0 ∷ 0 ∷ [] }

small-IsUnpack : IsUnpack small
small-IsUnpack = record {
  before = omega arith;
  two = omega arith;
  need_size = omega arith;
  three = omega arith;
  size_eq = refl;
}

midi_unpack_buf-IsUnpack_example :
    (u' : Unpack) × (es : List MidiEvent) × (midi_unpack_buf small
        (0x40 ∷ 0x7F ∷ 0xF8 ∷ 0xF7 ∷ 0x20 ∷ [])
        5
      ≡ some (u', es))
    × IsUnpack u'
    × (u'.size ≡ 3)
    × All (HasStatus 3) es
midi_unpack_buf-IsUnpack_example =
    midi_unpack_buf-IsUnpack small (0x40 ∷ 0x7F ∷ 0xF8 ∷ 0xF7 ∷ 0x20 ∷ []) 5 small-IsUnpack

abbrev events : List MidiEvent
events =
    record { time = 1; buffer = 0x90 ∷ 0x40 ∷ 0x7F ∷ [] }
    ∷ record { time = 2; buffer = 0x90 ∷ 0x40 ∷ 0 ∷ [] }
    ∷ record { time = 3; buffer = 0xF8 ∷ [] }
    ∷ record { time = 4; buffer = 0xF0 ∷ 1 ∷ 2 ∷ 0xF7 ∷ [] }
    ∷ []

events-IsMessage : All (λ e. IsMessage 1024 e.buffer) events
events-IsMessage = (
  voice 0x90 (0x40 ∷ 0x7F ∷ []) (omega arith) (omega arith) (omega arith, (omega arith, _)) refl,
  (
    voice 0x90 (0x40 ∷ 0 ∷ []) (omega arith) (omega arith) (omega arith, (omega arith, _)) refl,
    (
      realtime 0xF8 (omega arith),
      (exclusive (1 ∷ 2 ∷ []) (omega arith, (omega arith, _)) (omega arith), _),
    ),
  ),
)

relay-messages_example :
    relay
      (midi_pack_reset (record { running_status = 0x90 }))
      (midi_unpack_init (replicate 1024 0))
      events
    ≡ some (map heard events)
relay-messages_example =
    relay-messages (record { running_status = 0x90 }) (replicate 1024 0) events
      (length-replicate {A = ℕ} 1024 0) events-IsMessage

process_outgoing-take_example :
    (a2j_process_outgoing 100 150 250 events).0 ≡ take (150 / 100 + 250 / 100) (fitting events)
process_outgoing-take_example = process_outgoing-take 100 150 250 events
