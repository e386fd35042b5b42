-- ===== src/Netjack/Cache/Socket.antt =====
-- `packet_cache_drain_socket`: all that a socket has is read into the cache. The socket is the list
-- of what `recvfrom` returns until it reports an error.
pub mod Safe
pub mod Loop
pub mod Held
pub mod Arrival
pub mod Retrieved
use jack_example_tools.Base.{
  ℕ, ◌≤◌, Bool, true, false, not, ◌&&◌, Option, none, some, List, [], ◌∷◌, leb, ◌==◌, if◌then◌else◌,
  ◌>>=◌, length, set, get_elem?, take,
}
use jack_example_tools.Bytes.{splice, read32}
use jack_example_tools.Netjack.Packet.{CachePacket, framecnt_at, cache_packet_add_fragment}
use jack_example_tools.Netjack.Cache.{PacketCache, packet_cache_get_packet, update_packet}

-- A datagram, its sender, and the time at which `jack_get_time` is called for it.
pub record Received : Type 0 where
  pub bytes : List ℕ
  pub sender : ℕ
  pub now : ℕ

-- The cache and the receive buffer `rx_packet`.
pub record Drain : Type 0 where
  pub cache : PacketCache
  pub rx_packet : List ℕ

-- Whether the sender is not the master; without a master there is none to compare with.
unfoldable pub is_stranger : PacketCache → ℕ → Bool
is_stranger c sender = c.master_address_valid && not (sender == c.master_address)

unfoldable pub setup_master : PacketCache → ℕ → PacketCache
setup_master c sender =
    if c.master_address_valid
    then c
    else record c { master_address = sender; master_address_valid = true }

unfoldable pub is_late : PacketCache → ℕ → Bool
is_late c framecnt = c.last_framecnt_retreived_valid && leb framecnt c.last_framecnt_retreived

unfoldable pub put_packet : PacketCache → ℕ → CachePacket → PacketCache
put_packet c i p = record c { packets = set c.packets i p }

module _ (max_frames : ℕ) where
  -- The datagram in `rx` goes to the packet of its frame.
  unfoldable pub accept : PacketCache → List ℕ → ℕ → ℕ → ℕ → Option PacketCache
  accept c rx rcv_len framecnt now = do
    let r = packet_cache_get_packet max_frames c framecnt
    cpack ← get_elem? r.0.packets r.1
    cpack ← cache_packet_add_fragment cpack rx rcv_len
    some (put_packet r.0 r.1 (record cpack { recv_timestamp = now }))

  -- One round of the loop. `recvfrom` writes at most `mtu` bytes.
  unfoldable pub drain_round : Drain → Received → Option Drain
  drain_round s e =
      let got = take s.cache.mtu e.bytes in
      let rx = splice s.rx_packet 0 got in
      if is_stranger s.cache e.sender
      then some (record { cache = s.cache; rx_packet = rx })
      else (do
        let c = setup_master s.cache e.sender
        framecnt ← read32 rx framecnt_at
        if is_late c framecnt then some (record { cache = c; rx_packet = rx }) else (do
          c ← accept c rx (length got) framecnt e.now
          some (record { cache = c; rx_packet = rx })))

  unfoldable pub packet_cache_drain_socket : Drain → List Received → Option Drain
  packet_cache_drain_socket s [] = some s
  packet_cache_drain_socket s (e ∷ es) = do s ← drain_round s e; packet_cache_drain_socket s es
