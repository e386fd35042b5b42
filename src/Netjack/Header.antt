-- ===== src/Netjack/Header.antt =====
-- `jacknet_packet_header` of common/netjack_packet.h, and its conversions between host and network
-- byte order in common/netjack_packet.c.
pub mod Network
use jack_example_tools.Base.{ℕ, ◌+◌, ◌*◌, ◌/◌, ◌%◌, ◌^◌, List, [], ◌∷◌, ◌++◌, ◌==◌, if◌then◌else◌}
use jack_example_tools.Bytes.{net32}
pub use jack_example_tools.Bytes.{ByteOrder, little, big}
unfoldable pub use jack_example_tools.Bytes.{word_bytes}

pub record PacketHeader : Type 0 where
  pub capture_channels_audio : ℕ
  pub playback_channels_audio : ℕ
  pub capture_channels_midi : ℕ
  pub playback_channels_midi : ℕ
  pub period_size : ℕ
  pub sample_rate : ℕ
  pub sync_state : ℕ
  pub transport_frame : ℕ
  pub transport_state : ℕ
  pub framecnt : ℕ
  pub latency : ℕ
  pub reply_port : ℕ
  pub mtu : ℕ
  pub fragment_nr : ℕ

unfoldable pub swap32 : ℕ → ℕ
swap32 w = w % 256 * 2 ^ 24 + w / 2 ^ 8 % 256 * 2 ^ 16 + w / 2 ^ 16 % 256 * 2 ^ 8 + w / 2 ^ 24 % 256

-- The standard's `htonl` and `ntohl`.
unfoldable pub htonl : ByteOrder → ℕ → ℕ
htonl little w = swap32 w
htonl big w = w

unfoldable pub ntohl : ByteOrder → ℕ → ℕ
ntohl little w = swap32 w
ntohl big w = w

-- Each of the fourteen fields, in order.
abbrev pub map_header : (ℕ → ℕ) → PacketHeader → PacketHeader
map_header f h = record {
  capture_channels_audio = f h.capture_channels_audio;
  playback_channels_audio = f h.playback_channels_audio;
  capture_channels_midi = f h.capture_channels_midi;
  playback_channels_midi = f h.playback_channels_midi;
  period_size = f h.period_size;
  sample_rate = f h.sample_rate;
  sync_state = f h.sync_state;
  transport_frame = f h.transport_frame;
  transport_state = f h.transport_state;
  framecnt = f h.framecnt;
  latency = f h.latency;
  reply_port = f h.reply_port;
  mtu = f h.mtu;
  fragment_nr = f h.fragment_nr;
}

unfoldable pub packet_header_hton : ByteOrder → PacketHeader → PacketHeader
packet_header_hton order h = map_header (htonl order) h

unfoldable pub packet_header_ntoh : ByteOrder → PacketHeader → PacketHeader
packet_header_ntoh order h = map_header (ntohl order) h

-- The structure in memory: its words in the order of the fields, with no padding.
unfoldable pub header_bytes : (ℕ → List ℕ) → PacketHeader → List ℕ
header_bytes word h =
    word h.capture_channels_audio
    ++ (word h.playback_channels_audio
        ++ (word h.capture_channels_midi
            ++ (word h.playback_channels_midi
                ++ (word h.period_size
                    ++ (word h.sample_rate
                        ++ (word h.sync_state
                            ++ (word h.transport_frame
                                ++ (word h.transport_state
                                    ++ (word h.framecnt
                                        ++ (word h.latency
                                            ++ (word h.reply_port
                                                ++ (word h.mtu ++ word h.fragment_nr))))))))))))

abbrev pub opus_mode : ℕ
opus_mode = 999

-- `get_sample_size`: the bytes of a sample at a bit depth.
unfoldable pub get_sample_size : ℕ → ℕ
get_sample_size bitdepth =
    if bitdepth == 8
    then 1
    else if bitdepth == 16
    then 2
    else if bitdepth == opus_mode
    then 1
    else 4
