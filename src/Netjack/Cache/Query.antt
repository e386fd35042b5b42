-- ===== src/Netjack/Cache/Query.antt =====
-- The queries of the cache: fill level, next and highest available frame, latency.
pub mod Next
pub mod Highest
use jack_example_tools.Base.{
  ℕ, zero, suc, ◌+◌, ◌/◌, Bool, true, false, not, ◌&&◌, ◌||◌, Option, none, some, List, [], ◌∷◌,
  ltb, leb, ◌==◌, if◌then◌else◌, length,
}
use jack_example_tools.Machine.{add_u32, sub_u32}
use jack_example_tools.Netjack.Packet.{CachePacket, cache_packet_is_complete}
use jack_example_tools.Netjack.Cache.{PacketCache}

unfoldable pub available : CachePacket → Bool
available p = p.valid && cache_packet_is_complete p

unfoldable pub count_before_us : ℕ → List CachePacket → ℕ
count_before_us expected [] = 0
count_before_us expected (p ∷ ps) =
    (if available p && leb expected p.framecnt then 1 else 0) + count_before_us expected ps

-- The two numbers of which `packet_cache_get_fill` returns 100 times the quotient, as a `float`.
unfoldable pub packet_cache_get_fill : PacketCache → ℕ → ℕ × ℕ
packet_cache_get_fill c expected = (count_before_us expected c.packets, length c.packets)

-- The loops over the available packets keep `best_offset` (or `best_value`) and `retval`.
unfoldable pub next_from : ℕ → ℕ → Bool → List CachePacket → ℕ × Bool
next_from expected best retval [] = (best, retval)
next_from expected best retval (p ∷ ps) =
    let offset = sub_u32 p.framecnt expected in
    let skipped = next_from expected best retval ps in
    let moved = next_from expected offset true ps in
    if not (available p) || (ltb p.framecnt expected || ltb best offset)
    then skipped
    else if offset == 0
    then (offset, true)
    else moved

unfoldable pub highest_from : ℕ → Bool → List CachePacket → ℕ × Bool
highest_from best retval [] = (best, retval)
highest_from best retval (p ∷ ps) =
    let skipped = highest_from best retval ps in
    let moved = highest_from p.framecnt true ps in
    if not (available p) || ltb p.framecnt best then skipped else moved

unfoldable pub latency_from : ℕ → ℕ → Bool → List CachePacket → ℕ × Bool
latency_from expected best retval [] = (best, retval)
latency_from expected best retval (p ∷ ps) =
    let offset = sub_u32 p.framecnt expected in
    let skipped = latency_from expected best retval ps in
    let moved = latency_from expected offset true ps in
    if not (available p) || ltb offset best
    then skipped
    else if offset == 0
    then (offset, true)
    else moved

-- `none` is the result 0; `some` is the result 1 with what is stored through the pointer.
unfoldable pub packet_cache_get_highest_available_framecnt : PacketCache → Option ℕ
packet_cache_get_highest_available_framecnt c =
    let (best, found) = highest_from 0 false c.packets in if found then some best else none

module _ (max_frames : ℕ) where
  unfoldable pub packet_cache_get_next_available_framecnt : PacketCache → ℕ → Option ℕ
  packet_cache_get_next_available_framecnt c expected =
      let (best, found) = next_from expected (sub_u32 (max_frames / 2) 1) false c.packets in
      if found then some (add_u32 expected best) else none

  unfoldable pub packet_cache_find_latency : PacketCache → ℕ → Option ℕ
  packet_cache_find_latency c expected =
      let (best, found) = latency_from expected 0 false c.packets in
      if found then some (sub_u32 max_frames best) else none
