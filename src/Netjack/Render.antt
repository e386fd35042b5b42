-- ===== src/Netjack/Render.antt =====
-- `render_payload_to_jack_ports_float` and `render_jack_ports_to_payload_float` of
-- common/netjack_packet.c: the samples and MIDI events of JACK ports, one port behind the other in the
-- payload of a packet. A sample is the pattern of its 32 bits. `jack_port_get_buffer` and
-- `jack_port_type` are the data of a port, and the resampler is a parameter. A pointer to the payload is
-- the list of the bytes from it on; an access outside the part of a port is `none`.
pub mod Integer
pub mod Opus
pub mod Carried
pub mod RoundTrip
use jack_example_tools.Base.{
  ℕ, zero, suc, ◌+◌, ◌*◌, Bool, true, false, Option, none, some, List, [], ◌∷◌, ◌++◌, ◌>>=◌, ◌==◌,
  leb, if◌then◌else◌, length, take, drop,
}
use jack_example_tools.Bytes.{ByteOrder, little, big, net32, word_bytes}
use jack_example_tools.Memops.Loops.{write_loop, read_loop}
use jack_example_tools.Memops.In.{host_word}
use jack_example_tools.Netjack.Midi.{MidiEvent, slice, encode_midi_buffer, decode_midi_buffer}

-- A port by its type, with its buffer.
pub data JackPort : Type 0 where
  audio : List ℕ → JackPort
  midi : List MidiEvent → JackPort
  other : JackPort

-- `packet_bufX[i] = htonl (packet_bufX[i])` for each word, and likewise with `ntohl`.
unfoldable pub swap_words : ByteOrder → List ℕ → List ℕ
swap_words little (a ∷ b ∷ c ∷ d ∷ words) = d ∷ c ∷ b ∷ a ∷ swap_words little words
swap_words order words = words

-- Samples stored from the start of a buffer on; `none` is a write behind its end.
unfoldable pub overlay : List ℕ → List ℕ → Option (List ℕ)
overlay samples buf =
    if leb (length samples) (length buf) then some (samples ++ drop (length samples) buf) else none

-- The samples that a resampler reads.
unfoldable pub first : ℕ → List ℕ → Option (List ℕ)
first n buf = if leb n (length buf) then some (take n buf) else none

-- The payload and the port buffers when a function has returned, and the states of the resamplers.
pub record Rendered (S : Type 0) : Type 0 where
  pub payload : List ℕ
  pub ports : List JackPort
  pub srcs : List S

module _ (order : ByteOrder) (dont_htonl_floats : Bool) where
  -- A sample in memory and in the payload.
  abbrev pub sample_bytes : ℕ → List ℕ
  sample_bytes val = if dont_htonl_floats then word_bytes order val else net32 val

  abbrev pub sample_of : List ℕ → ℕ
  sample_of bytes = if dont_htonl_floats then host_word order bytes else host_word big bytes

module _ {S : Type 0} where
  -- The states of the resamplers behind the one that was used, and all of them afterwards.
  abbrev pub next_srcs : Option S → List S → List S
  next_srcs none srcs = srcs
  next_srcs (some s) srcs = drop 1 srcs

  abbrev pub back_srcs : Option S → List S → List S
  back_srcs none srcs = srcs
  back_srcs (some s) srcs = s ∷ srcs

  -- The loop over the ports, each with the next `size` bytes of the payload.
  unfoldable pub each_port :
      (List ℕ → JackPort → List S → Option (List ℕ × JackPort × Option S))
      → ℕ
      → List ℕ
      → List JackPort
      → List S
      → Option (Rendered S)
  each_port render size payload [] srcs =
      some (record { payload = payload; ports = []; srcs = srcs })
  each_port render size payload (port ∷ ports) srcs = do
    part ← slice payload 0 size
    r ← render part port srcs
    rest ← each_port render size (drop size payload) ports (next_srcs r.2 srcs)
    some (record {
      payload = r.0 ++ rest.payload;
      ports = r.1 ∷ rest.ports;
      srcs = back_srcs r.2 rest.srcs;
    })

-- `src_set_ratio` and `src_process`: from the state, the samples put in and the number of samples that
-- there is room for to the new state and the samples that were put out.
module _ {S : Type 0} (src_process : S → List ℕ → ℕ → S × List ℕ) (order : ByteOrder)
    (dont_htonl_floats : Bool) where
  -- One port's part of the payload, its buffer, and the state of the resampler that was used.
  unfoldable pub payload_to_port :
      ℕ → ℕ → List ℕ → JackPort → List S → Option (List ℕ × JackPort × Option S)
  payload_to_port net_period_down nframes part (audio buf) srcs =
      if net_period_down == nframes
      then (do
        samples ← read_loop 4 (sample_of order dont_htonl_floats) net_period_down part 0 4
        buf ← overlay samples buf
        some (part, audio buf, none))
      else resampled srcs
    where
      resampled : List S → Option (List ℕ × JackPort × Option S)
      resampled [] = none
      resampled (s ∷ srcs) = do
        let part = swap_words order part
        samples ← read_loop 4 (host_word order) net_period_down part 0 4
        let r = src_process s samples nframes
        buf ← overlay r.1 buf
        some (part, audio buf, some r.0)
  payload_to_port net_period_down nframes part (midi events) srcs = do
    events ← decode_midi_buffer part net_period_down
    some (part, midi events, none)
  payload_to_port net_period_down nframes part other srcs = some (part, other, none)

  unfoldable pub port_to_payload :
      ℕ → ℕ → List ℕ → JackPort → List S → Option (List ℕ × JackPort × Option S)
  port_to_payload net_period_up nframes part (audio buf) srcs =
      if net_period_up == nframes
      then (do
        part ← write_loop (sample_bytes order dont_htonl_floats) net_period_up part 0 buf 4
        some (part, audio buf, none))
      else resampled srcs
    where
      resampled : List S → Option (List ℕ × JackPort × Option S)
      resampled [] = none
      resampled (s ∷ srcs) = do
        samples ← first nframes buf
        let r = src_process s samples net_period_up
        part ← write_loop (word_bytes order) (length r.1) part 0 r.1 4
        some (swap_words order part, audio buf, some r.0)
  port_to_payload net_period_up nframes part (midi events) srcs = do
    part ← encode_midi_buffer part net_period_up events
    some (part, midi events, none)
  port_to_payload net_period_up nframes part other srcs = some (part, other, none)

  -- Without a payload nothing is done.
  unfoldable pub render_payload_to_jack_ports_float :
      Option (List ℕ) → ℕ → List JackPort → List S → ℕ → Option (Rendered S)
  render_payload_to_jack_ports_float none net_period_down capture_ports capture_srcs nframes =
      some (record { payload = []; ports = capture_ports; srcs = capture_srcs })
  render_payload_to_jack_ports_float (some packet_payload) net_period_down capture_ports
        capture_srcs nframes =
      each_port (payload_to_port net_period_down nframes) (4 * net_period_down) packet_payload
        capture_ports capture_srcs

  unfoldable pub render_jack_ports_to_payload_float :
      List JackPort → List S → ℕ → List ℕ → ℕ → Option (Rendered S)
  render_jack_ports_to_payload_float playback_ports playback_srcs nframes packet_payload
        net_period_up =
      each_port (port_to_payload net_period_up nframes) (4 * net_period_up) packet_payload
        playback_ports playback_srcs
