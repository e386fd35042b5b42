-- ===== src/AlsaMidi/Unpack.antt =====
-- tools/alsa_midi/midi_unpack.h: a stream of MIDI bytes is cut into the events of a JACK port, which
-- is the list of the events passed to `jack_midi_event_write`.
pub mod Taken
pub mod Safe
use jack_example_tools.Base.{
  ℕ, suc, ◌+◌, ◌-◌, ◌/◌, ◌%◌, Bool, true, false, ◌&&◌, ◌||◌, Option, none, some, List, [], ◌∷◌,
  ◌++◌, leb, ltb, ◌==◌, if◌then◌else◌, ◌>>=◌, get_elem?, get_or,
}
use jack_example_tools.Bytes.{store}
use jack_example_tools.Netjack.Midi.{MidiEvent, slice}

-- `midi_unpack_t`; `msg_data` is the array `data` of its bytes.
pub record Unpack : Type 0 where
  pub pos : ℕ
  pub need : ℕ
  pub size : ℕ
  pub msg_data : List ℕ

-- `MIDI_UNPACK_MAX_MSG`
abbrev pub max_msg : ℕ
max_msg = 1024

-- The array keeps the bytes it has.
unfoldable pub midi_unpack_init : List ℕ → Unpack
midi_unpack_init bytes = record { pos = 0; need = max_msg; size = max_msg; msg_data = bytes }

unfoldable pub midi_unpack_reset : Unpack → Unpack
midi_unpack_reset u = record u { pos = 0; need = u.size }

-- By the high digit of the status, from 0x80 on.
abbrev pub midi_voice_len : List ℕ
midi_voice_len = 3 ∷ 3 ∷ 3 ∷ 3 ∷ 2 ∷ 2 ∷ 3 ∷ 1 ∷ []

-- By the low digit of the status, from 0xF0 on.
abbrev pub midi_system_len : List ℕ
midi_system_len = 0 ∷ 2 ∷ 3 ∷ 2 ∷ 0 ∷ 0 ∷ 1 ∷ 1 ∷ []

-- `assert (buf->pos < buf->size); buf->data[buf->pos++] = byte`; `none` is a failed assertion, or a
-- write outside the array.
unfoldable pub push : Unpack → ℕ → Option Unpack
push u byte =
    if ltb u.pos u.size
    then (do
      bytes ← store u.msg_data u.pos byte
      some (record u { pos = suc u.pos; msg_data = bytes }))
    else none

-- A status byte begins a message.
unfoldable pub start : Unpack → ℕ → ℕ → Option Unpack
start u byte need = do
  bytes ← store u.msg_data 0 byte
  some (record u { pos = 1; need = need; msg_data = bytes })

unfoldable pub system_need : Unpack → ℕ → ℕ
system_need u byte =
    let need = get_or midi_system_len (byte - 0xF0) 0 in if need == 0 then u.size else need

-- The branches for a byte that is no system realtime message.
unfoldable pub take_byte : Unpack → ℕ → Option Unpack
take_byte u byte =
    if ltb byte 0x80
    then push u byte
    else if ltb byte 0xF0
    then start u byte (get_or midi_voice_len ((byte - 0x80) / 16) 0)
    else if byte == 0xF7
    then (do u ← push u byte; some (record u { need = u.pos }))
    else start u byte (system_need u byte)

-- The message in `msg_data` is written, if it begins with a status; a note on of velocity 0 as a note
-- off.
unfoldable pub write_message : Unpack → ℕ → ℕ → Option (List MidiEvent)
write_message u time first =
    if leb 0x80 first || (first == 0xF0 && (get_or u.msg_data (u.pos - 1) 0 == 0xF7))
    then (do
      key ← get_elem? u.msg_data 1
      velocity ← get_elem? u.msg_data 2
      buffer ← slice u.msg_data 0 u.pos
      if (first / 16 == 9) && (velocity == 0)
          then some (record { time = time; buffer = (0x80 + first % 16) ∷ key ∷ 0x40 ∷ [] } ∷ [])
          else some (record { time = time; buffer = buffer } ∷ []))
    else some []

-- A voice status is kept for the messages that follow without one.
unfoldable pub keep_status : Unpack → ℕ → Unpack
keep_status u first =
    if leb 0x80 first && ltb first 0xF0
    then record u { pos = 1 }
    else record u { pos = 0; need = u.size }

-- `if (buf->pos == buf->need)`
unfoldable pub finish : Unpack → ℕ → Option (Unpack × List MidiEvent)
finish u time =
    if u.pos == u.need
    then (do
      first ← get_elem? u.msg_data 0
      events ← write_message u time first
      some (keep_status u first, events))
    else some (u, [])

-- One round of the loop.
unfoldable pub unpack_byte : Unpack → ℕ → ℕ → Option (Unpack × List MidiEvent)
unpack_byte u time byte =
    if leb 0xF8 byte
    then (do r ← finish u time; some (r.0, record { time = time; buffer = byte ∷ [] } ∷ r.1))
    else (do u ← take_byte u byte; finish u time)

unfoldable pub midi_unpack_buf : Unpack → List ℕ → ℕ → Option (Unpack × List MidiEvent)
midi_unpack_buf u [] time = some (u, [])
midi_unpack_buf u (byte ∷ bytes) time = do
  r ← unpack_byte u time byte
  rest ← midi_unpack_buf r.0 bytes time
  some (rest.0, r.1 ++ rest.1)
