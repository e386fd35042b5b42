-- ===== src/Netjack/Transfer.antt =====
-- Reassembly: `cache_packet_add_fragment` over the datagrams of `netjack_sendto`, whatever their
-- order and however often each arrives.
pub mod Blocks
pub mod Store
pub mod Whole
use jack_example_tools.Base.{Option, some, List, [], ◌∷◌, ℕ, ◌>>=◌, length}
use jack_example_tools.Netjack.Packet.{CachePacket, cache_packet_add_fragment}

-- The datagrams in the order of their arrival, each received whole: the calls of
-- `cache_packet_add_fragment` alone. The loop of `packet_cache_drain_socket` around them, with its
-- checks and the look-up of the packet, is in Netjack/Cache/Socket.
unfoldable pub deliver : CachePacket → List (List ℕ) → Option CachePacket
deliver pack [] = some pack
deliver pack (g ∷ gs) = do pack ← cache_packet_add_fragment pack g (length g); deliver pack gs
