-- ===== src/Netjack/Cache.antt =====
-- `packet_cache` of common/netjack_packet.h and its functions in common/netjack_packet.c: creation,
-- look-up with eviction, retrieval, release and the queries. A `cache_packet *` is an index.
pub mod New
pub mod Socket
pub mod Find
pub mod Lookup
pub mod Release
pub mod Query
pub mod Valid
use jack_example_tools.Base.{
  ℕ, zero, suc, ◌+◌, ◌-◌, ◌/◌, ◌^◌, Bool, true, false, not, ◌&&◌, ◌||◌, Option, none, some, List,
  [], ◌∷◌, map, ltb, leb, ◌==◌, if◌then◌else◌, length, set, get_elem?,
}
use jack_example_tools.Machine.{add_u32, sub_u32}
use jack_example_tools.Netjack.Packet.{
  CachePacket, cache_packet_reset, cache_packet_set_framecnt, cache_packet_is_complete,
}

-- `struct _packet_cache`; its `size` is the length of the array, over which every loop runs.
-- A socket address is the number that its bytes spell.
pub record PacketCache : Type 0 where
  pub packets : List CachePacket
  pub mtu : ℕ
  pub master_address : ℕ
  pub master_address_valid : Bool
  pub last_framecnt_retreived : ℕ
  pub last_framecnt_retreived_valid : Bool

-- `for (i = 0; i < size; i++) if (test (packets[i])) return i`
unfoldable pub find_index : (CachePacket → Bool) → List CachePacket → Option ℕ
find_index test [] = none
find_index test (p ∷ ps) =
    if test p then some 0 else elim (find_index test ps) [ none ↦ none | some i ↦ some (suc i) ]

abbrev pub holds_frame : ℕ → CachePacket → Bool
holds_frame framecnt p = p.valid && (p.framecnt == framecnt)

abbrev pub is_free : CachePacket → Bool
is_free p = not p.valid

unfoldable pub packet_cache_get_free_packet : PacketCache → Option ℕ
packet_cache_get_free_packet pcache = find_index is_free pcache.packets

-- The search of `packet_cache_get_oldest_packet` from index `i`: the least frame so far, and where.
unfoldable pub oldest_from : ℕ → ℕ → ℕ → List CachePacket → ℕ
oldest_from i minimal_frame retval [] = retval
oldest_from i minimal_frame retval (p ∷ ps) =
    let older = p.valid && ltb p.framecnt minimal_frame in
    oldest_from (suc i) (if older then p.framecnt else minimal_frame) (if older then i else retval)
      ps

-- Rewrites the packet behind a pointer.
unfoldable pub update_packet : ℕ → (CachePacket → CachePacket) → PacketCache → PacketCache
update_packet i f pcache = elim (get_elem? pcache.packets i) [
  | none ↦ pcache
  | some p ↦ record pcache { packets = set pcache.packets i (f p) }
]

-- `JACK_MAX_FRAMES` is a constant of JACK's headers.
module _ (max_frames : ℕ) where
  unfoldable pub packet_cache_get_oldest_packet : PacketCache → ℕ
  packet_cache_get_oldest_packet pcache = oldest_from 0 max_frames 0 pcache.packets

  unfoldable pub packet_cache_get_packet : PacketCache → ℕ → PacketCache × ℕ
  packet_cache_get_packet pcache framecnt =
      elim (find_index (holds_frame framecnt) pcache.packets) [
        | some i ↦ (pcache, i)
        | none ↦ elim (packet_cache_get_free_packet pcache) [
          | some i ↦ (update_packet i (λ p. cache_packet_set_framecnt p framecnt) pcache, i)
          | none ↦
              let i = packet_cache_get_oldest_packet pcache in
              (
                update_packet i (λ p. cache_packet_set_framecnt (cache_packet_reset p) framecnt)
                    pcache,
                i,
              )
        ]
      ]

unfoldable pub packet_cache_reset_master_address : PacketCache → PacketCache
packet_cache_reset_master_address pcache = record pcache {
  master_address_valid = false;
  last_framecnt_retreived = 0;
  last_framecnt_retreived_valid = false;
}

abbrev pub clear_old : ℕ → CachePacket → CachePacket
clear_old framecnt p = if p.valid && ltb p.framecnt framecnt then cache_packet_reset p else p

unfoldable pub packet_cache_clear_old_packets : PacketCache → ℕ → PacketCache
packet_cache_clear_old_packets pcache framecnt = record pcache {
  packets = map (clear_old framecnt) pcache.packets;
}

-- What is handed out: the buffer, the time stamp and the size; `none` is the result -1.
unfoldable pub packet_cache_retreive_packet_pointer :
    PacketCache → ℕ → ℕ → PacketCache × Option (List ℕ × ℕ × ℕ)
packet_cache_retreive_packet_pointer pcache framecnt pkt_size =
    elim (find_index (holds_frame framecnt) pcache.packets) [
      | none ↦ (pcache, none)
      | some i ↦ elim (get_elem? pcache.packets i) [
        | none ↦ (pcache, none)
        | some p ↦
            if cache_packet_is_complete p
            then (
              record pcache {
                last_framecnt_retreived_valid = true;
                last_framecnt_retreived = framecnt;
              },
              some (p.packet_buf, p.recv_timestamp, pkt_size),
            )
            else (pcache, none)
      ]
    ]

-- The flag is `false` for the result -1.
unfoldable pub packet_cache_release_packet : PacketCache → ℕ → PacketCache × Bool
packet_cache_release_packet pcache framecnt =
    elim (find_index (holds_frame framecnt) pcache.packets) [
      | none ↦ (pcache, false)
      | some i ↦ elim (get_elem? pcache.packets i) [
        | none ↦ (pcache, false)
        | some p ↦
            if cache_packet_is_complete p
            then (
              packet_cache_clear_old_packets (update_packet i cache_packet_reset pcache) framecnt,
              true,
            )
            else (pcache, false)
      ]
    ]
