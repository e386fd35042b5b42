-- ===== src/Netjack/Render/Opus.antt =====
-- The rendering of ports with Opus, of common/netjack_packet.c: a port's part of the payload is the
-- length of the compressed data, a `short` in network order, and the data. The encoder and the decoder
-- are parameters.
pub mod Relayed
use jack_example_tools.Base.{
  ℕ, ◌+◌, ◌-◌, ◌*◌, ◌/◌, ◌%◌, ◌^◌, Option, none, some, List, [], ◌∷◌, ◌>>=◌, length, replicate,
  drop,
}
use jack_example_tools.Bytes.{big}
use jack_example_tools.Machine.{sub_size}
use jack_example_tools.Memops.Loops.{put}
use jack_example_tools.Memops.Out.{bytes_16}
use jack_example_tools.Memops.In.{host_word}
use jack_example_tools.Netjack.Midi.{slice, encode_midi_buffer, decode_midi_buffer}
use jack_example_tools.Netjack.Render.{
  JackPort, audio, midi, other, first, overlay, Rendered, each_port,
}

-- `CDO`
abbrev pub cdo : ℕ
cdo = 2

-- `opus_custom_encode_float`: from the state, the samples and the room to the new state, the bytes
-- written and the value returned, an `int`.
module _ {S : Type 0} (opus_encode : S → List ℕ → ℕ → S × List ℕ × ℕ) where
  unfoldable pub port_to_opus :
      ℕ → ℕ → List ℕ → JackPort → List S → Option (List ℕ × JackPort × Option S)
  port_to_opus net_period_up nframes part (audio buf) [] = none
  port_to_opus net_period_up nframes part (audio buf) (encoder ∷ srcs) = do
    floatbuf ← first nframes buf
    let r = opus_encode encoder floatbuf (sub_size net_period_up cdo % 2 ^ 32)
    part ← put part cdo r.1
    part ← put part 0 (bytes_16 big r.2)
    some (part, audio buf, some r.0)
  port_to_opus net_period_up nframes part (midi events) srcs = do
    part ← encode_midi_buffer part (net_period_up / 2) events
    some (part, midi events, none)
  port_to_opus net_period_up nframes part other srcs = some (part, other, none)

  unfoldable pub render_jack_ports_to_payload_opus :
      List JackPort → List S → ℕ → List ℕ → ℕ → Option (Rendered S)
  render_jack_ports_to_payload_opus playback_ports playback_srcs nframes packet_payload
        net_period_up =
      each_port (port_to_opus net_period_up nframes) net_period_up packet_payload playback_ports
        playback_srcs

-- `opus_custom_decode_float`: from the state, the data, the buffer and the number of frames to the new
-- state and the buffer as it is left.
module _ {S : Type 0} (opus_decode : S → List ℕ → List ℕ → ℕ → S × List ℕ) where
  unfoldable pub opus_to_port :
      ℕ → ℕ → List ℕ → JackPort → List S → Option (List ℕ × JackPort × Option S)
  opus_to_port net_period_down nframes part (audio buf) [] = none
  opus_to_port net_period_down nframes part (audio buf) (decoder ∷ srcs) = do
    len ← slice part 0 cdo
    compressed ← slice part cdo (host_word big len)
    let r = opus_decode decoder compressed buf nframes
    some (part, audio r.1, some r.0)
  opus_to_port net_period_down nframes part (midi events) srcs = do
    events ← decode_midi_buffer part (net_period_down / 2)
    some (part, midi events, none)
  opus_to_port net_period_down nframes part other srcs = some (part, other, none)

  -- Without a payload the audio ports are silent; the decoders are passed over.
  unfoldable pub silent_ports : ℕ → List JackPort → List S → Option (List JackPort)
  silent_ports nframes [] srcs = some []
  silent_ports nframes (audio buf ∷ ports) [] = none
  silent_ports nframes (audio buf ∷ ports) (decoder ∷ srcs) = do
    buf ← overlay (replicate nframes 0) buf
    ports ← silent_ports nframes ports srcs
    some (audio buf ∷ ports)
  silent_ports nframes (midi events ∷ ports) srcs = do
    ports ← silent_ports nframes ports srcs
    some (midi events ∷ ports)
  silent_ports nframes (other ∷ ports) srcs = do
    ports ← silent_ports nframes ports srcs
    some (other ∷ ports)

  unfoldable pub render_payload_to_jack_ports_opus :
      Option (List ℕ) → ℕ → List JackPort → List S → ℕ → Option (Rendered S)
  render_payload_to_jack_ports_opus none net_period_down capture_ports capture_srcs nframes = do
    ports ← silent_ports nframes capture_ports capture_srcs
    some (record { payload = []; ports = ports; srcs = capture_srcs })
  render_payload_to_jack_ports_opus (some packet_payload) net_period_down capture_ports capture_srcs
        nframes =
      each_port (opus_to_port net_period_down nframes) net_period_down packet_payload capture_ports
        capture_srcs
