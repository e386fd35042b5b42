-- ===== src/Netjack/Tests/Data.antt =====
-- The packet, the configuration and the cached packet of the tests.
use jack_example_tools.Base.{ℕ, ◌≡◌, refl, arith, false, List, [], ◌∷◌, ◌++◌, some, replicate}
use jack_example_tools.Bytes.{read32}
use jack_example_tools.Netjack.Packet.{CachePacket, framecnt_at}
use jack_example_tools.Netjack.Packet.Valid.{IsConfig, IsPacket}

abbrev pub packet : List ℕ
packet = replicate 39 0 ++ (7 ∷ (replicate 16 0 ++ (1 ∷ 2 ∷ 3 ∷ 4 ∷ 5 ∷ [])))

pub config : IsConfig 61 58
config = omega arith

pub frame : read32 packet framecnt_at ≡ some 7
unfolding read32
frame = refl

abbrev pub empty : CachePacket
empty = record {
  valid = false;
  num_fragments = 3;
  packet_size = 61;
  mtu = 58;
  recv_timestamp = 0;
  framecnt = 0;
  fragment_array = replicate 3 1;
  packet_buf = replicate 61 0;
}

pub empty-IsPacket : IsPacket 61 58 empty
empty-IsPacket = omega arith

abbrev pub tx : List ℕ
tx = replicate 68 255
