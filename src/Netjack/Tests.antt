-- ===== src/Netjack/Tests.antt =====
-- The theorems on the network transport at concrete packets: a packet of 61 bytes over datagrams
-- of 58, which takes three fragments.
mod Data
mod Cache
mod Render
use jack_example_tools.Base.{
  ℕ, ◌+◌, ◌^◌, ◌<◌, ◌≡◌, refl, arith, true, List, [], ◌∷◌, ◌++◌, map, Option, none, some, length,
  get_or, replicate,
}
use jack_example_tools.Bytes.{memcpy, net32, read32, splice}
use jack_example_tools.Netjack.Header.{
  PacketHeader, little, word_bytes, packet_header_hton, packet_header_ntoh, header_bytes,
}
use jack_example_tools.Netjack.Header.Network.{ntoh-hton, hton_wire}
use jack_example_tools.Netjack.Packet.{
  CachePacket, framecnt_at, fragment_nr_at, cache_packet_set_framecnt, cache_packet_add_fragment,
  cache_packet_is_complete,
}
use jack_example_tools.Netjack.Packet.Valid.{IsConfig, IsPacket, fragment_count}
use jack_example_tools.Netjack.Packet.Fragment.{add_fragment_overflow}
use jack_example_tools.Netjack.Packet.Total.{Kept, add_fragment-Kept}
use jack_example_tools.Netjack.Send.{netjack_sendto}
use jack_example_tools.Netjack.Send.Fragments.{numbered}
use jack_example_tools.Netjack.Send.Loop.{Sent, netjack_sendto-Sent}
use jack_example_tools.Netjack.Transfer.{deliver}
use jack_example_tools.Netjack.Transfer.Whole.{transfer_lem, all_in}
use jack_example_tools.Netjack.Midi.{
  MidiEvent, encode_midi_buffer, decode_midi_buffer, put_event, decode_from, encode_from,
}
use jack_example_tools.Netjack.Midi.RoundTrip.{fitting, decode-encode}
use jack_example_tools.Netjack.Tests.Data.{packet, config, frame, empty, empty-IsPacket, tx}

transfer_example :
    (grams : List (List ℕ)) × (pack' : CachePacket) × (netjack_sendto tx packet 61 58 ≡ some grams)
    × (length grams ≡ fragment_count 61 58)
    × (deliver
          (cache_packet_set_framecnt empty 7)
          (map (λ k. get_or grams k []) (2 ∷ 0 ∷ 1 ∷ 2 ∷ []))
        ≡ some pack')
    × (cache_packet_is_complete pack' ≡ all_in (fragment_count 61 58) (2 ∷ 0 ∷ 1 ∷ 2 ∷ []))
    × (all_in (fragment_count 61 58) (2 ∷ 0 ∷ 1 ∷ 2 ∷ []) ≡ true
        → pack'.packet_buf ≡ numbered packet 0)
transfer_example =
    transfer_lem packet 61 58 7 config refl frame tx (2 ∷ 0 ∷ 1 ∷ 2 ∷ []) empty refl empty-IsPacket
      (omega arith)

netjack_sendto-Sent_example :
    (grams : List (List ℕ)) × (netjack_sendto tx packet 61 58 ≡ some grams)
    × Sent packet 61 58 0 grams
netjack_sendto-Sent_example = netjack_sendto-Sent packet 61 58 config refl tx refl

add_fragment-Kept_example :
    (pack' : CachePacket) × (cache_packet_add_fragment empty packet 58 ≡ some pack')
    × Kept 61 58 empty pack'
add_fragment-Kept_example =
    add_fragment-Kept 61 58 config empty-IsPacket packet 58 (omega arith) (omega arith)
      (omega arith)

-- A first fragment of 61 bytes for a cache of packets of 60.
abbrev short : CachePacket
short = record empty {
  packet_size = 60;
  packet_buf = replicate 60 0;
  num_fragments = 2;
  fragment_array = replicate 2 0;
  framecnt = 7;
}

abbrev first_fragment : List ℕ
first_fragment = replicate 39 0 ++ (7 ∷ replicate 21 0)

first_nr : read32 first_fragment fragment_nr_at ≡ some 0
unfolding read32
first_nr = refl

first_frame : read32 first_fragment framecnt_at ≡ some 7
unfolding read32
first_frame = refl

add_fragment_overflow_example : cache_packet_add_fragment short first_fragment 61 ≡ none
add_fragment_overflow_example =
    add_fragment_overflow {pkt_size = 60} {mtu = 58} (omega arith) (omega arith) first_fragment 61
      (omega arith) (omega arith) (omega arith) first_frame first_nr (omega arith)

abbrev header : PacketHeader
header = record {
  capture_channels_audio = 2;
  playback_channels_audio = 2;
  capture_channels_midi = 1;
  playback_channels_midi = 1;
  period_size = 1024;
  sample_rate = 48000;
  sync_state = 1;
  transport_frame = 0;
  transport_state = 0;
  framecnt = 305419896;
  latency = 5;
  reply_port = 3000;
  mtu = 1400;
  fragment_nr = 3;
}

ntoh-hton_example : packet_header_ntoh little (packet_header_hton little header) ≡ header
ntoh-hton_example = ntoh-hton little header (omega arith)

hton_wire_example :
    let bytes = header_bytes (word_bytes little) (packet_header_hton little header) in
    (bytes ≡ header_bytes net32 header)
    × (read32 bytes framecnt_at ≡ some 305419896)
    × (read32 bytes fragment_nr_at ≡ some 3)
hton_wire_example = hton_wire little header (omega arith)

-- A note on, a program change and an event for which there is no room.
abbrev events : List MidiEvent
events =
    record { time = 3; buffer = 144 ∷ 60 ∷ 100 ∷ [] }
    ∷ record { time = 9; buffer = 192 ∷ 5 ∷ [] }
    ∷ record { time = 10; buffer = 128 ∷ 60 ∷ 0 ∷ [] }
    ∷ []

abbrev words : List ℕ
words = replicate 40 0

decode-encode_example :
    (buf' : List ℕ) × (encode_midi_buffer words 10 events ≡ some buf')
    × (length buf' ≡ length words)
    × (decode_midi_buffer buf' 10 ≡ some (fitting 0 10 events))
decode-encode_example = decode-encode words 10 events (omega arith) (omega arith) refl (omega arith)
