-- ===== src/Netjack/Render/Integer.antt =====
-- The rendering of ports with samples of 16 and of 8 bits, of common/netjack_packet.c, and the
-- dispatch by bit depth of a build without Opus.
pub mod RoundTrip
pub mod Signed
use jack_example_tools.Base.{
  ℕ, ◌+◌, ◌-◌, ◌*◌, ◌/◌, ◌%◌, ◌^◌, Bool, true, false, Option, none, some, List, [], ◌∷◌, ◌>>=◌,
  ◌==◌, ltb, if◌then◌else◌, length, ℤ, pos, negsuc,
}
use jack_example_tools.Bytes.{ByteOrder, big}
use jack_example_tools.Memops.Float.{Floats, int_bits}
use jack_example_tools.Memops.Loops.{write_loop, read_loop}
use jack_example_tools.Memops.Out.{bytes_16}
use jack_example_tools.Memops.In.{host_word}
use jack_example_tools.Netjack.Midi.{encode_midi_buffer, decode_midi_buffer}
use jack_example_tools.Netjack.Render.{
  JackPort, audio, midi, other, first, overlay, Rendered, each_port,
  render_payload_to_jack_ports_float, render_jack_ports_to_payload_float,
}

-- The number that a signed byte stands for.
abbrev pub char_value : ℕ → ℤ
char_value b = if ltb b (2 ^ 7) then pos b else negsuc (2 ^ 8 - b - 1)

module _ (fl : Floats) where
  open fl use {
    widen, narrow, add_d, sub_d, mul_d, div_d, of_int, of_int_d, truncate_d, bits, of_bits,
  }

  -- `(uint16_t)((buf[i] + 1.0) * 32767.0)`, a number of 16 bits
  abbrev pub sample_to_16 : ℕ → ℕ
  sample_to_16 w =
      int_bits
        (truncate_d (mul_d (add_d (widen (of_bits w)) (of_int_d (pos 1))) (of_int_d (pos 32767))))
      % 2 ^ 16

  -- `((float) z) / scale - 1.0`
  abbrev pub sample_of_16 : ℕ → ℕ → ℕ
  sample_of_16 scale z =
      bits
        (narrow (sub_d (div_d (widen (of_int (pos z))) (of_int_d (pos scale))) (of_int_d (pos 1))))

  -- `buf[i] * 127.0` as a signed byte, and back
  abbrev pub sample_to_8 : ℕ → ℕ
  sample_to_8 w = int_bits (truncate_d (mul_d (widen (of_bits w)) (of_int_d (pos 127)))) % 2 ^ 8

  abbrev pub sample_of_8 : ℕ → ℕ
  sample_of_8 b = bits (narrow (div_d (widen (of_int (char_value b))) (of_int_d (pos 127))))

  -- `htons` makes the order of the bytes that of the network.
  abbrev pub put_16 : ℕ → List ℕ
  put_16 w = bytes_16 big (sample_to_16 w)

  abbrev pub get_16 : ℕ → List ℕ → ℕ
  get_16 scale bytes = sample_of_16 scale (host_word big bytes)

  abbrev pub put_8 : ℕ → List ℕ
  put_8 w = sample_to_8 w ∷ []

  abbrev pub get_8 : List ℕ → ℕ
  get_8 bytes = sample_of_8 (host_word big bytes)

module _ {S : Type 0} (src_process : S → List ℕ → ℕ → S × List ℕ) where
  -- A port and its part of the payload, with the bytes of a sample, the words for MIDI data, and the
  -- conversions; `resampled` is that of a sample for the resampler.
  unfoldable pub part_to_port :
      ℕ
      → ℕ
      → (List ℕ → ℕ)
      → (List ℕ → ℕ)
      → ℕ
      → ℕ
      → List ℕ
      → JackPort
      → List S
      → Option (List ℕ × JackPort × Option S)
  part_to_port size words direct resampled net_period_down nframes part (audio buf) srcs =
      if net_period_down == nframes
      then (do
        samples ← read_loop size direct net_period_down part 0 size
        buf ← overlay samples buf
        some (part, audio buf, none))
      else with_src srcs
    where
      with_src : List S → Option (List ℕ × JackPort × Option S)
      with_src [] = none
      with_src (s ∷ srcs) = do
        floatbuf ← read_loop size resampled net_period_down part 0 size
        let r = src_process s floatbuf nframes
        buf ← overlay r.1 buf
        some (part, audio buf, some r.0)
  part_to_port size words direct resampled net_period_down nframes part (midi events) srcs = do
    events ← decode_midi_buffer part words
    some (part, midi events, none)
  part_to_port size words direct resampled net_period_down nframes part other srcs =
      some (part, other, none)

  -- `uninit` is what `floatbuf` holds before the resampler writes to it.
  unfoldable pub port_to_part :
      ℕ
      → ℕ
      → (ℕ → List ℕ)
      → List ℕ
      → ℕ
      → ℕ
      → List ℕ
      → JackPort
      → List S
      → Option (List ℕ × JackPort × Option S)
  port_to_part size words conv uninit net_period_up nframes part (audio buf) srcs =
      if net_period_up == nframes
      then (do part ← write_loop conv net_period_up part 0 buf size; some (part, audio buf, none))
      else with_src srcs
    where
      with_src : List S → Option (List ℕ × JackPort × Option S)
      with_src [] = none
      with_src (s ∷ srcs) = do
        samples ← first nframes buf
        let r = src_process s samples net_period_up
        floatbuf ← overlay r.1 uninit
        part ← write_loop conv net_period_up part 0 floatbuf size
        some (part, audio buf, some r.0)
  port_to_part size words conv uninit net_period_up nframes part (midi events) srcs = do
    part ← encode_midi_buffer part words events
    some (part, midi events, none)
  port_to_part size words conv uninit net_period_up nframes part other srcs =
      some (part, other, none)

  -- Without a payload nothing is done.
  unfoldable pub from_payload :
      (List ℕ → JackPort → List S → Option (List ℕ × JackPort × Option S))
      → ℕ
      → Option (List ℕ)
      → List JackPort
      → List S
      → Option (Rendered S)
  from_payload render size none ports srcs =
      some (record { payload = []; ports = ports; srcs = srcs })
  from_payload render size (some payload) ports srcs = each_port render size payload ports srcs

  module _ (fl : Floats) (uninit : List ℕ) where
    unfoldable pub render_payload_to_jack_ports_16bit :
        Option (List ℕ) → ℕ → List JackPort → List S → ℕ → Option (Rendered S)
    render_payload_to_jack_ports_16bit packet_payload net_period_down capture_ports capture_srcs
          nframes =
        from_payload
          (part_to_port 2 (net_period_down / 2) (get_16 fl 32768) (get_16 fl 32767) net_period_down
            nframes)
          (2 * net_period_down) packet_payload capture_ports capture_srcs

    unfoldable pub render_jack_ports_to_payload_16bit :
        List JackPort → List S → ℕ → List ℕ → ℕ → Option (Rendered S)
    render_jack_ports_to_payload_16bit playback_ports playback_srcs nframes packet_payload
          net_period_up =
        each_port (port_to_part 2 (net_period_up / 2) (put_16 fl) uninit net_period_up nframes)
          (2 * net_period_up) packet_payload playback_ports playback_srcs

    -- The MIDI data of a port are decoded from twice the words that are encoded.
    unfoldable pub render_payload_to_jack_ports_8bit :
        Option (List ℕ) → ℕ → List JackPort → List S → ℕ → Option (Rendered S)
    render_payload_to_jack_ports_8bit packet_payload net_period_down capture_ports capture_srcs
          nframes =
        from_payload
          (part_to_port 1 (net_period_down / 2) (get_8 fl) (get_8 fl) net_period_down nframes)
          net_period_down packet_payload capture_ports capture_srcs

    unfoldable pub render_jack_ports_to_payload_8bit :
        List JackPort → List S → ℕ → List ℕ → ℕ → Option (Rendered S)
    render_jack_ports_to_payload_8bit playback_ports playback_srcs nframes packet_payload
          net_period_up =
        each_port (port_to_part 1 (net_period_up / 4) (put_8 fl) uninit net_period_up nframes)
          net_period_up packet_payload playback_ports playback_srcs

    unfoldable pub render_payload_to_jack_ports :
        ByteOrder
        → ℕ
        → Option (List ℕ)
        → ℕ
        → List JackPort
        → List S
        → ℕ
        → Bool
        → Option (Rendered S)
    render_payload_to_jack_ports order bitdepth packet_payload net_period_down capture_ports
          capture_srcs nframes dont_htonl_floats =
        if bitdepth == 8
        then render_payload_to_jack_ports_8bit packet_payload net_period_down capture_ports
            capture_srcs nframes
        else if bitdepth == 16
        then render_payload_to_jack_ports_16bit packet_payload net_period_down capture_ports
            capture_srcs nframes
        else render_payload_to_jack_ports_float src_process order dont_htonl_floats packet_payload
            net_period_down capture_ports capture_srcs nframes

    unfoldable pub render_jack_ports_to_payload :
        ByteOrder → ℕ → List JackPort → List S → ℕ → List ℕ → ℕ → Bool → Option (Rendered S)
    render_jack_ports_to_payload order bitdepth playback_ports playback_srcs nframes packet_payload
          net_period_up dont_htonl_floats =
        if bitdepth == 8
        then render_jack_ports_to_payload_8bit playback_ports playback_srcs nframes packet_payload
            net_period_up
        else if bitdepth == 16
        then render_jack_ports_to_payload_16bit playback_ports playback_srcs nframes packet_payload
            net_period_up
        else render_jack_ports_to_payload_float src_process order dont_htonl_floats playback_ports
            playback_srcs nframes packet_payload net_period_up
