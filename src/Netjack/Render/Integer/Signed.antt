-- ===== src/Netjack/Render/Integer/Signed.antt =====
-- What one client renders into a payload of 8-bit samples, another client renders out of it: the sign
-- of a sample survives the byte that carries it.
use jack_example_tools.Base.{
  ℕ, ◌*◌, ◌/◌, ◌%◌, ◌^◌, ◌≤◌, ◌≡◌, refl, ap, ap₂, ◌∙◌, arith, Bool, some, List, [], ◌∷◌, map,
  length, All, ℤ, pos, negsuc, ◌≤ℤ◌,
}
use jack_example_tools.Bytes.{ByteOrder}
use jack_example_tools.Memops.Float.{Floats, int_bits, minus}
use jack_example_tools.Memops.In.{host_word}
use jack_example_tools.Netjack.Midi.RoundTrip.{fitting}
use jack_example_tools.Netjack.Render.{JackPort, audio, midi, other}
use jack_example_tools.Netjack.Render.Carried.{Paired, all_carried}
use jack_example_tools.Netjack.Render.Integer.{
  char_value, sample_to_8, sample_of_8, put_8, get_8, part_to_port, port_to_part, from_payload,
  render_payload_to_jack_ports_8bit, render_jack_ports_to_payload_8bit,
  render_payload_to_jack_ports, render_jack_ports_to_payload,
}
use jack_example_tools.Netjack.Render.Integer.RoundTrip.{SameType, arrived, carry}

-- From -128 to 127.
abbrev pub IsChar : ℤ → Type 0
IsChar z = (minus 128 ≤ℤ z) × (z ≤ℤ pos 127)

-- The byte of such an integer stands for it.
char_value-int_bits : (z : ℤ) → IsChar z → char_value (int_bits z % 2 ^ 8) ≡ z
char_value-int_bits (pos n) h = ground arith
char_value-int_bits (negsuc n) h = ground arith

module _ (fl : Floats) where
  open fl use {widen, narrow, mul_d, div_d, of_int, of_int_d, truncate_d, bits, of_bits}

  -- A sample of the bits `w` times 127, without its fraction.
  abbrev pub times_127 : ℕ → ℤ
  times_127 w = truncate_d (mul_d (widen (of_bits w)) (of_int_d (pos 127)))

  -- An integer divided by 127, as the bits of a sample.
  abbrev pub over_127 : ℤ → ℕ
  over_127 z = bits (narrow (div_d (widen (of_int z)) (of_int_d (pos 127))))

  -- The samples of a port that a signed byte can hold.
  abbrev pub FitsChar : JackPort → Type 0
  FitsChar (audio buf) = All (λ w. IsChar (times_127 w)) buf
  FitsChar (midi events) = Unit
  FitsChar other = Unit

  sample_of_8-sample_to_8 :
      (w : ℕ) → IsChar (times_127 w) → sample_of_8 fl (sample_to_8 fl w) ≡ over_127 (times_127 w)
  sample_of_8-sample_to_8 w h = ap over_127 (char_value-int_bits (times_127 w) h)

  samples_of_8 :
      (buf : List ℕ)
      → All (λ w. IsChar (times_127 w)) buf
      → map (λ w. sample_of_8 fl (sample_to_8 fl w)) buf ≡ map (λ w. over_127 (times_127 w)) buf
  samples_of_8 [] h = refl
  samples_of_8 (w ∷ buf) (h, hs) = ap₂ (◌∷◌) (sample_of_8-sample_to_8 w h) (samples_of_8 buf hs)

  arrived_signed :
      (ports : List JackPort)
      → All FitsChar ports
      → map (arrived (λ w. sample_of_8 fl (sample_to_8 fl w)) 0) ports
        ≡ map (arrived (λ w. over_127 (times_127 w)) 0) ports
  arrived_signed [] h = refl
  arrived_signed (audio buf ∷ ports) (h, hs) =
      ap₂ (◌∷◌) (ap audio (samples_of_8 buf h)) (arrived_signed ports hs)
  arrived_signed (midi events ∷ ports) (h, hs) =
      ap (λ ps. midi (fitting 0 0 events) ∷ ps) (arrived_signed ports hs)
  arrived_signed (other ∷ ports) (h, hs) = ap (λ ps. other ∷ ps) (arrived_signed ports hs)

get_8-put_8 : (fl : Floats) (w : ℕ) → get_8 fl (put_8 fl w) ≡ sample_of_8 fl (sample_to_8 fl w)
unfolding host_word
get_8-put_8 fl w = ap (sample_of_8 fl) (omega arith)

module _ {S : Type 0} {S' : Type 0} (src_process : S → List ℕ → ℕ → S × List ℕ)
    (src_process' : S' → List ℕ → ℕ → S' × List ℕ) (fl : Floats) (uninit uninit' : List ℕ)
    (order order' : ByteOrder) (dont_htonl_floats : Bool) (n : ℕ) where
  depth_8_copied :
      (ports ports' : List JackPort) (srcs : List S) (srcs' : List S') (payload : List ℕ)
      → Paired (SameType n 0) ports ports'
      → length ports * n ≤ length payload
      → (payload' : List ℕ) × (render_jack_ports_to_payload src_process fl uninit order 8 ports srcs
            n payload n dont_htonl_floats
          ≡ some (record { payload = payload'; ports = ports; srcs = srcs }))
        × (length payload' ≡ length payload)
        × (render_payload_to_jack_ports src_process' fl uninit' order' 8
              (some payload')
              n
              ports'
              srcs'
              n
              dont_htonl_floats
            ≡ some (record {
              payload = payload';
              ports = map (arrived (λ w. sample_of_8 fl (sample_to_8 fl w)) 0) ports;
              srcs = srcs';
            }))
  unfolding render_jack_ports_to_payload render_payload_to_jack_ports
      render_jack_ports_to_payload_8bit render_payload_to_jack_ports_8bit from_payload
  depth_8_copied ports ports' srcs srcs' payload same room =
      let c =
        all_carried (port_to_part src_process 1 (n / 4) (put_8 fl) uninit n n)
          (part_to_port src_process' 1 (n / 2) (get_8 fl) (get_8 fl) n n)
          (arrived (λ w. sample_of_8 fl (sample_to_8 fl w)) 0) n (SameType n 0)
          (λ p q srcs srcs' part related size.
            carry src_process src_process' 1 n 0 (omega arith) (λ h. absurd (omega arith))
              (omega arith) (n / 4) (n / 2) (λ h. absurd (omega arith)) (put_8 fl) (λ w. refl)
              (get_8 fl) (get_8 fl) _ (get_8-put_8 fl) uninit p q srcs srcs' part related
              (omega (arith, size)))
          ports ports' srcs srcs' payload same room in
      (c.payload', c.sent, c.same_length, c.got)

  -- At 8 bits and with a period of `n` frames on both sides, ports of the same types, none of MIDI, where
  -- each sample times 127, without its fraction, is an integer from -128 to 127: rendering the sender's
  -- ports into a payload with room for them succeeds and keeps its length, and rendering it to the
  -- receiver's ports gives them for each sample this integer, with its sign, divided by 127.
  pub depth_8_lem :
      (ports ports' : List JackPort) (srcs : List S) (srcs' : List S') (payload : List ℕ)
      → Paired (SameType n 0) ports ports'
      → All (FitsChar fl) ports
      → length ports * n ≤ length payload
      → (payload' : List ℕ) × (render_jack_ports_to_payload src_process fl uninit order 8 ports srcs
            n payload n dont_htonl_floats
          ≡ some (record { payload = payload'; ports = ports; srcs = srcs }))
        × (length payload' ≡ length payload)
        × (render_payload_to_jack_ports src_process' fl uninit' order' 8
              (some payload')
              n
              ports'
              srcs'
              n
              dont_htonl_floats
            ≡ some (record {
              payload = payload';
              ports = map (arrived (λ w. over_127 fl (times_127 fl w)) 0) ports;
              srcs = srcs';
            }))
  depth_8_lem ports ports' srcs srcs' payload same fits room =
      let (payload', sent, kept, got) = depth_8_copied ports ports' srcs srcs' payload same room in
      (
        payload',
        sent,
        kept,
        got
            ∙ ap (λ ps. some (record { payload = payload'; ports = ps; srcs = srcs' }))
                (arrived_signed fl ports fits),
      )
