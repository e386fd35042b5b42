-- ===== src/Netjack/Header/Network.antt =====
-- The converted header has one layout on the wire, whatever the host's byte order.
use jack_example_tools.Base.{ℕ, ◌^◌, ◌<◌, ◌≡◌, refl, ap, ◌∷◌, arith, some, ap₂}
use jack_example_tools.Bytes.{net32, read32}
use jack_example_tools.Netjack.Packet.{framecnt_at, fragment_nr_at}
use jack_example_tools.Netjack.Header.{
  PacketHeader, ByteOrder, little, big, swap32, htonl, ntohl, word_bytes, packet_header_hton,
  packet_header_ntoh, header_bytes,
}

-- Every field is a 32-bit word.
pub record IsHeader (h : PacketHeader) : Type 0 where
  pub capture_channels_audio : h.capture_channels_audio < 2 ^ 32
  pub playback_channels_audio : h.playback_channels_audio < 2 ^ 32
  pub capture_channels_midi : h.capture_channels_midi < 2 ^ 32
  pub playback_channels_midi : h.playback_channels_midi < 2 ^ 32
  pub period_size : h.period_size < 2 ^ 32
  pub sample_rate : h.sample_rate < 2 ^ 32
  pub sync_state : h.sync_state < 2 ^ 32
  pub transport_frame : h.transport_frame < 2 ^ 32
  pub transport_state : h.transport_state < 2 ^ 32
  pub framecnt : h.framecnt < 2 ^ 32
  pub latency : h.latency < 2 ^ 32
  pub reply_port : h.reply_port < 2 ^ 32
  pub mtu : h.mtu < 2 ^ 32
  pub fragment_nr : h.fragment_nr < 2 ^ 32

ntohl-htonl : (order : ByteOrder) (w : ℕ) → w < 2 ^ 32 → ntohl order (htonl order w) ≡ w
unfolding ntohl htonl swap32
ntohl-htonl little w h = omega arith
ntohl-htonl big w h = refl

word_bytes-htonl : (order : ByteOrder) (w : ℕ) → word_bytes order (htonl order w) ≡ net32 w
unfolding word_bytes htonl swap32 net32
word_bytes-htonl little w =
    ap₂ ◌∷◌ (omega arith)
      (ap₂ ◌∷◌ (omega arith) (ap₂ ◌∷◌ (omega arith) (ap₂ ◌∷◌ (omega arith) refl)))
word_bytes-htonl big w = refl

-- `packet_header_ntoh` undoes `packet_header_hton` on either byte order.
pub ntoh-hton :
    (order : ByteOrder) (h : PacketHeader)
    → IsHeader h
    → packet_header_ntoh order (packet_header_hton order h) ≡ h
unfolding packet_header_ntoh packet_header_hton
ntoh-hton order h v = λ i. record {
  capture_channels_audio = ntohl-htonl order h.capture_channels_audio v.capture_channels_audio i;
  playback_channels_audio = ntohl-htonl order h.playback_channels_audio v.playback_channels_audio i;
  capture_channels_midi = ntohl-htonl order h.capture_channels_midi v.capture_channels_midi i;
  playback_channels_midi = ntohl-htonl order h.playback_channels_midi v.playback_channels_midi i;
  period_size = ntohl-htonl order h.period_size v.period_size i;
  sample_rate = ntohl-htonl order h.sample_rate v.sample_rate i;
  sync_state = ntohl-htonl order h.sync_state v.sync_state i;
  transport_frame = ntohl-htonl order h.transport_frame v.transport_frame i;
  transport_state = ntohl-htonl order h.transport_state v.transport_state i;
  framecnt = ntohl-htonl order h.framecnt v.framecnt i;
  latency = ntohl-htonl order h.latency v.latency i;
  reply_port = ntohl-htonl order h.reply_port v.reply_port i;
  mtu = ntohl-htonl order h.mtu v.mtu i;
  fragment_nr = ntohl-htonl order h.fragment_nr v.fragment_nr i;
}

wire :
    (order : ByteOrder) (h : PacketHeader)
    → header_bytes (word_bytes order) (packet_header_hton order h) ≡ header_bytes net32 h
unfolding header_bytes packet_header_hton
wire order h = simp word_bytes-htonl

-- The converted header lies in memory as big-endian words, in the order of the fields, on either
-- byte order; its frame count and fragment number stand where the cache reads them.
pub hton_wire :
    (order : ByteOrder) (h : PacketHeader)
    → IsHeader h
    → let bytes = header_bytes (word_bytes order) (packet_header_hton order h) in
      (bytes ≡ header_bytes net32 h)
      × (read32 bytes framecnt_at ≡ some h.framecnt)
      × (read32 bytes fragment_nr_at ≡ some h.fragment_nr)
hton_wire order h v = rw (wire order h) (
  refl,
  unfold header_bytes net32 read32 in ap some (omega (arith, v.framecnt)),
  unfold header_bytes net32 read32 in ap some (omega (arith, v.fragment_nr)),
)
