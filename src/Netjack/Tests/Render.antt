-- ===== src/Netjack/Tests/Render.antt =====
-- Three ports of one client rendered into a payload and out of it on a host of the other byte order.
use jack_example_tools.Base.{
  ◌≤◌, length-take, get_or, drop, ◌++◌, ℕ, ◌+◌, ◌≡◌, refl, inl, arith, true, false, some, List, [],
  ◌∷◌, map, length, replicate, take,
}
use jack_example_tools.Bytes.{read32}
use jack_example_tools.Netjack.Packet.{
  CachePacket, header_size, framecnt_at, cache_packet_set_framecnt, cache_packet_is_complete,
}
use jack_example_tools.Netjack.Send.{netjack_sendto}
use jack_example_tools.Netjack.Transfer.{deliver}
use jack_example_tools.Netjack.Relay.{relay_ports}
use jack_example_tools.Bytes.{little, big}
use jack_example_tools.Memops.Integers.{integers}
use jack_example_tools.Netjack.Render.Integer
use jack_example_tools.Netjack.Render.Integer.{
  sample_to_16, sample_of_16, render_payload_to_jack_ports, render_jack_ports_to_payload,
}
use jack_example_tools.Netjack.Render.Opus.{
  render_jack_ports_to_payload_opus, render_payload_to_jack_ports_opus,
}
use jack_example_tools.Netjack.Render.Opus.Relayed.{encoders, decoded, payload_to_ports-opus}
use jack_example_tools.Netjack.Render.Integer.RoundTrip.{depth_16_lem}
use jack_example_tools.Netjack.Render.Integer.Signed.{times_127, over_127, depth_8_lem}
use jack_example_tools.Netjack.Render.{
  JackPort, audio, midi, other, render_payload_to_jack_ports_float,
  render_jack_ports_to_payload_float,
}
use jack_example_tools.Netjack.Render.RoundTrip.{arrived, payload_to_ports-ports_to_payload}

-- A resampler that repeats its first samples, and counts its calls.
abbrev some_of : ℕ → List ℕ → ℕ → ℕ × List ℕ
some_of calls samples room = (calls + 1, take room samples)

abbrev ports : List JackPort
ports =
    audio (replicate 6 4000000000)
    ∷ other
    ∷ midi (
        record { time = 5; buffer = 144 ∷ 60 ∷ 100 ∷ [] }
        ∷ record { time = 6; buffer = replicate 9 7 }
        ∷ [])
    ∷ []

abbrev ports' : List JackPort
ports' = audio (replicate 6 0) ∷ other ∷ midi [] ∷ []

abbrev empty_payload : List ℕ
empty_payload = replicate 72 0

payload_to_ports-ports_to_payload_example :
    (payload' : List ℕ) × (render_jack_ports_to_payload_float some_of little false ports
        (0 ∷ [])
        6
        empty_payload
        6
      ≡ some (record { payload = payload'; ports = ports; srcs = 0 ∷ [] }))
    × (length payload' ≡ length empty_payload)
    × (render_payload_to_jack_ports_float some_of big false (some payload') 6 ports' [] 6
        ≡ some (record { payload = payload'; ports = map (arrived 6) ports; srcs = [] }))
payload_to_ports-ports_to_payload_example =
    payload_to_ports-ports_to_payload little big false (inl refl) some_of some_of 6 (omega arith)
      (omega arith) ports ports' (0 ∷ []) [] empty_payload
      (
        (
          refl,
          (
            omega arith,
            (omega arith, (omega arith, (omega arith, (omega arith, (omega arith, _))))),
          ),
          refl,
        ),
        (_, (((omega arith, omega arith), ((omega arith, omega arith), _)), _)),
      )
      (omega arith)

-- An audio port and a MIDI port at 16 bits.
abbrev numbers : List ℕ
numbers = 0 ∷ 1 ∷ 0 ∷ 1 ∷ 1 ∷ 0 ∷ 0 ∷ 0 ∷ 0 ∷ 0 ∷ []

abbrev sixteen : List JackPort
sixteen = audio numbers ∷ midi (record { time = 5; buffer = 144 ∷ [] } ∷ []) ∷ []

abbrev sixteen' : List JackPort
sixteen' = audio (replicate 10 7) ∷ midi [] ∷ []

depth_16_example :
    (payload' : List ℕ) × (render_jack_ports_to_payload some_of integers [] little 16 sixteen [] 10
        empty_payload 10 true
      ≡ some (record { payload = payload'; ports = sixteen; srcs = [] }))
    × (length payload' ≡ length empty_payload)
    × (render_payload_to_jack_ports some_of integers [] big 16
          (some payload')
          10
          sixteen'
          []
          10
          true
        ≡ some (record {
          payload = payload';
          ports =
              map
                (Integer.RoundTrip.arrived
                  (λ w. sample_of_16 integers 32768 (sample_to_16 integers w))
                  5)
                sixteen;
          srcs = [];
        }))
depth_16_example =
    depth_16_lem some_of some_of integers [] [] little big true 10 sixteen sixteen' [] []
      empty_payload refl (omega arith)
      ((refl, refl), ((omega arith, ((omega arith, omega arith), _)), _)) (omega arith)

-- The samples 0, 1 and -1.
abbrev signed : List ℕ
signed = 0 ∷ 1 ∷ 4294967295 ∷ 1 ∷ 4294967295 ∷ 0 ∷ 0 ∷ 0 ∷ 0 ∷ 0 ∷ []

abbrev eight : List JackPort
eight = audio signed ∷ other ∷ []

abbrev eight' : List JackPort
eight' = audio (replicate 10 7) ∷ other ∷ []

depth_8_example :
    (payload' : List ℕ) × (render_jack_ports_to_payload some_of integers [] little 8 eight [] 10
        empty_payload 10 true
      ≡ some (record { payload = payload'; ports = eight; srcs = [] }))
    × (length payload' ≡ length empty_payload)
    × (render_payload_to_jack_ports some_of integers [] big 8 (some payload') 10 eight' [] 10 true
        ≡ some (record {
          payload = payload';
          ports =
              map
                (Integer.RoundTrip.arrived (λ w. over_127 integers (times_127 integers w)) 0)
                eight;
          srcs = [];
        }))
depth_8_example =
    depth_8_lem some_of some_of integers [] [] little big true 10 eight eight' [] [] empty_payload
      ((refl, refl), (_, _)) (omega arith) (omega arith)

-- The payload is sent in a packet of 128 bytes over datagrams of 100, of which two arrive, the first
-- one twice.
abbrev frame_header : List ℕ
frame_header = replicate 39 0 ++ (7 ∷ replicate 16 0)

frame_header-frame : read32 frame_header framecnt_at ≡ some 7
unfolding read32
frame_header-frame = refl

abbrev cached : CachePacket
cached = record {
  valid = true;
  num_fragments = 2;
  packet_size = 128;
  mtu = 100;
  recv_timestamp = 0;
  framecnt = 0;
  fragment_array = replicate 2 1;
  packet_buf = replicate 128 0;
}

relay_ports_example :
    (payload' : List ℕ) × (grams : List (List ℕ)) × (pack' : CachePacket)
    × (render_jack_ports_to_payload_float some_of little false ports (0 ∷ []) 6 empty_payload 6
        ≡ some (record { payload = payload'; ports = ports; srcs = 0 ∷ [] }))
    × (netjack_sendto (replicate 110 0) (frame_header ++ payload') 128 100 ≡ some grams)
    × (deliver (cache_packet_set_framecnt cached 7) (map (λ k. get_or grams k []) (1 ∷ 0 ∷ 0 ∷ []))
        ≡ some pack')
    × (cache_packet_is_complete pack' ≡ true)
    × (render_payload_to_jack_ports_float some_of big false
          (some (drop header_size pack'.packet_buf))
          6
          ports'
          []
          6
        ≡ some (record { payload = payload'; ports = map (arrived 6) ports; srcs = [] }))
relay_ports_example =
    relay_ports little big false (inl refl) some_of some_of 6 (omega arith) (omega arith) 128 100 7
      (omega arith) ports ports' (0 ∷ []) [] frame_header empty_payload (replicate 110 0)
      (1 ∷ 0 ∷ 0 ∷ []) cached
      (
        (
          refl,
          (
            omega arith,
            (omega arith, (omega arith, (omega arith, (omega arith, (omega arith, _))))),
          ),
          refl,
        ),
        (_, (((omega arith, omega arith), ((omega arith, omega arith), _)), _)),
      )
      (omega arith) refl refl frame_header-frame refl (omega arith) (omega arith) refl

-- A coder that cuts the samples to the room there is, and counts its calls.
abbrev cut_to_room : ℕ → List ℕ → ℕ → ℕ × List ℕ × ℕ
cut_to_room calls samples room = (calls + 1, take room samples, length (take room samples))

cut_to_room-fits :
    (calls : ℕ) (samples : List ℕ)
    → (length (cut_to_room calls samples 8).1 ≤ 8)
      × ((cut_to_room calls samples 8).2 ≡ length (cut_to_room calls samples 8).1)
cut_to_room-fits calls samples = (omega (arith, length-take 8 samples), refl)

abbrev as_they_are : ℕ → List ℕ → List ℕ → ℕ → ℕ × List ℕ
as_they_are calls compressed buf frames = (calls + 1, compressed)

payload_to_ports-opus_example :
    (payload' : List ℕ) × (render_jack_ports_to_payload_opus cut_to_room eight
        (4 ∷ [])
        9
        empty_payload
        10
      ≡ some (record {
        payload = payload';
        ports = eight;
        srcs = encoders cut_to_room as_they_are 10 9 eight (4 ∷ []);
      }))
    × (length payload' ≡ length empty_payload)
    × (render_payload_to_jack_ports_opus as_they_are (some payload') 10 eight' (6 ∷ []) 9
        ≡ some (record {
          payload = payload';
          ports = (decoded cut_to_room as_they_are 10 9 eight eight' (4 ∷ []) (6 ∷ [])).0;
          srcs = (decoded cut_to_room as_they_are 10 9 eight eight' (4 ∷ []) (6 ∷ [])).1;
        }))
payload_to_ports-opus_example =
    payload_to_ports-opus cut_to_room as_they_are 10 9 (omega arith) (omega arith) cut_to_room-fits
      eight eight' (4 ∷ []) (6 ∷ []) empty_payload (omega arith, _) (omega arith)
