-- ===== src/Netjack/Cache/New.antt =====
-- `packet_cache_new`: the allocation of a cache. `malloc` is a parameter: the outcome of its n-th
-- call for a size, a block of indeterminate bytes or nothing.
pub mod Fresh
use jack_example_tools.Base.{
  ℕ, zero, suc, ◌+◌, ◌*◌, ◌/◌, ◌%◌, ◌^◌, ◌-◌, ◌≤◌, ◌<◌, ◌≡◌, ◌≢◌, ◌⊎◌, inl, inr, refl, ap, sym, ◌∙◌,
  arith, Bool, true, false, Option, none, some, List, [], ◌∷◌, if◌then◌else◌, ◌==◌, length,
  get_elem?, Bool-cases, Option-cases, some_inj, none-ne-some, ◌>>=◌, >>=-eq-some,
}
use jack_example_tools.Machine.{size_of_int, int_of_size, rounds, sub_size, add_size}
use jack_example_tools.Netjack.Packet.{CachePacket, header_size, payload_size}
use jack_example_tools.Netjack.Packet.Valid.{
  IsConfig, IsPacket, fragment_count, fragment_count_max, div-le, payload_size_lem,
}
use jack_example_tools.Netjack.Cache.{PacketCache}
use jack_example_tools.Netjack.Cache.Valid.{IsCache, Each}

-- A cache, the result `NULL`, or the trap of a division by a payload size of 0.
pub data NewCache : Type 0 where
  created : PacketCache → NewCache
  null trap : NewCache

-- `sizeof (packet_cache)` and `sizeof (cache_packet)`, with 64-bit pointers.
abbrev pub cache_bytes : ℕ
cache_bytes = 48

abbrev pub packet_bytes : ℕ
packet_bytes = 48

-- `int fragment_number`, in the branch that divides.
unfoldable pub fragment_number : ℕ → ℕ → ℕ
fragment_number pkt_size mtu = int_of_size (
    add_size
      (sub_size (sub_size (size_of_int pkt_size) header_size) 1 / size_of_int (payload_size mtu)) 1)

-- What `malloc` leaves in fields that `packet_cache_new` does not write.
pub record Stale : Type 0 where
  pub timestamp : ℕ
  pub address : ℕ

abbrev pub result : Option PacketCache → NewCache
result none = null
result (some c) = created c

module _ (malloc : ℕ → ℕ → Option (List ℕ)) (stale : Stale) where
  -- The loop over the packets; `none` is the early `return NULL`. Calls 0 and 1 of `malloc` come
  -- before it, and each round makes two.
  unfoldable pub new_packets : (left i count pkt_size mtu : ℕ) → Option (List CachePacket)
  new_packets zero i count pkt_size mtu = some []
  new_packets (suc left) i count pkt_size mtu = do
    flags ← malloc (2 + 2 * i) (size_of_int count)
    buf ← malloc (3 + 2 * i) (size_of_int pkt_size)
    rest ← new_packets left (i + 1) count pkt_size mtu
    some (
        record {
          valid = false;
          num_fragments = count;
          packet_size = pkt_size;
          mtu = mtu;
          recv_timestamp = stale.timestamp;
          framecnt = 0;
          fragment_array = flags;
          packet_buf = buf;
        }
        ∷ rest)

  unfoldable pub allocate : (num_packets count pkt_size mtu : ℕ) → Option PacketCache
  allocate num_packets count pkt_size mtu = do
    pcache ← malloc 0 cache_bytes
    packets ← malloc 1 (packet_bytes * size_of_int num_packets % 2 ^ 64)
    packets ← new_packets (rounds num_packets) 0 count pkt_size mtu
    some (record {
      packets = packets;
      mtu = mtu;
      master_address = stale.address;
      master_address_valid = false;
      last_framecnt_retreived = 0;
      last_framecnt_retreived_valid = false;
    })

  unfoldable pub packet_cache_new : (num_packets pkt_size mtu : ℕ) → NewCache
  packet_cache_new num_packets pkt_size mtu =
      if size_of_int pkt_size == header_size
      then result (allocate num_packets 1 pkt_size mtu)
      else if size_of_int (payload_size mtu) == 0
      then trap
      else result (allocate num_packets (fragment_number pkt_size mtu) pkt_size mtu)
