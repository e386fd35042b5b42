-- ===== src/Netjack/Midi.antt =====
-- `encode_midi_buffer` and `decode_midi_buffer` of common/netjack_packet.c: MIDI events in the
-- 32-bit words of a packet. The buffer is the block of its bytes, four to a word. The JACK port
-- buffer is the list of its events: those that `jack_midi_event_get` yields, and those that are
-- passed to `jack_midi_event_write`.
pub mod Words
pub mod RoundTrip
use jack_example_tools.Base.{
  ℕ, zero, suc, ◌+◌, ◌*◌, ◌/◌, ◌%◌, ◌^◌, ◌≤◌, Bool, true, false, Option, none, some, List, [], ◌∷◌,
  leb, ltb, ◌==◌, if◌then◌else◌, ◌>>=◌, length, take, drop,
}
use jack_example_tools.Machine.{sub_size, add_u32, sub_u32}
use jack_example_tools.Bytes.{memcpy, net32, read32}

-- `jack_midi_event_t`; its `size` is the length of `buffer`.
pub record MidiEvent : Type 0 where
  pub time : ℕ
  pub buffer : List ℕ

-- `unsigned int nb_data_quads = (((size - 1) & ~0x3) >> 2) + 1`, with a `size_t` size
unfoldable pub data_quads : ℕ → ℕ
data_quads size = (sub_size size 1 / 4 + 1) % 2 ^ 32

-- `buffer_uint32[i] = htonl (w)`
unfoldable pub put_word : List ℕ → ℕ → ℕ → Option (List ℕ)
put_word buf i w = memcpy buf (4 * i) (net32 w) 4

unfoldable pub get_word : List ℕ → ℕ → Option ℕ
get_word buf i = read32 buf (4 * i)

-- `n` bytes from an offset on; `none` is a read outside the block.
unfoldable pub slice : List ℕ → ℕ → ℕ → Option (List ℕ)
slice buf off n = if leb (off + n) (length buf) then some (take n (drop off buf)) else none

-- The header and the data of one event at word `written`.
unfoldable pub put_event : List ℕ → ℕ → ℕ → MidiEvent → Option (List ℕ)
put_event buf written payload_size e = do
  buf ← put_word buf written payload_size
  buf ← put_word buf (written + 1) e.time
  buf ← put_word buf (written + 2) (length e.buffer)
  memcpy buf (4 * (written + 3)) e.buffer (length e.buffer)

-- The loop from word `written` on, and the end mark behind it. An event that does not fit ends
-- the loop.
unfoldable pub encode_from : List ℕ → ℕ → ℕ → List MidiEvent → Option (List ℕ)
encode_from buf written size [] = put_word buf written 0
encode_from buf written size (e ∷ es) =
    let payload_size = add_u32 3 (data_quads (length e.buffer)) in
    elim (ltb (add_u32 written payload_size) (sub_u32 size 1)) [
      | true ↦ do
        buf ← put_event buf written payload_size e
        encode_from buf (add_u32 written payload_size) size es
      | false ↦ put_word buf written 0
    ]

unfoldable pub encode_midi_buffer : List ℕ → ℕ → List MidiEvent → Option (List ℕ)
encode_midi_buffer buf size events = encode_from buf 0 size events

-- The events written to the port, from word `i` on. Every round moves on by three words at least,
-- so `size + 1` rounds suffice; `none` is a read outside the buffer, or no fuel left.
unfoldable pub decode_from : ℕ → List ℕ → ℕ → ℕ → Option (List MidiEvent)
decode_from zero buf i size = none
decode_from (suc fuel) buf i size = elim (ltb i (sub_u32 size 3)) [
  | false ↦ some []
  | true ↦ do
    payload_size ← get_word buf i
    if payload_size == 0 then some [] else (do
      time ← get_word buf (i + 1)
      bytes ← get_word buf (i + 2)
      buffer ← slice buf (4 * (i + 3)) bytes
      rest ← decode_from fuel buf (i + (3 + data_quads bytes)) size
      some (record { time = time; buffer = buffer } ∷ rest))
]

unfoldable pub decode_midi_buffer : List ℕ → ℕ → Option (List MidiEvent)
decode_midi_buffer buf size = decode_from (size + 1) buf 0 size
