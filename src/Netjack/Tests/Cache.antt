-- ===== src/Netjack/Tests/Cache.antt =====
-- The theorems on the cache at a cache of two packets.
use jack_example_tools.Base.{
  ℕ, zero, suc, ◌/◌, ◌≤◌, ◌≡◌, ◌≢◌, refl, sym, arith, true, false, List, [], ◌∷◌, Option, none,
  some, some_inj, get_elem?, replicate, if◌then◌else◌,
}
use jack_example_tools.Machine.{sub_u32}
use jack_example_tools.Netjack.Packet.{CachePacket, cache_packet_is_complete, all_set}
use jack_example_tools.Netjack.Packet.Valid.{IsPacket, fragment_count}
use jack_example_tools.Netjack.Send.{netjack_sendto}
use jack_example_tools.Netjack.Send.Fragments.{numbered}
use jack_example_tools.Netjack.Transfer.Whole.{all_in}
use jack_example_tools.Netjack.Cache.{
  PacketCache, packet_cache_get_packet, packet_cache_retreive_packet_pointer,
  packet_cache_release_packet, find_index, oldest_from, packet_cache_get_free_packet,
  packet_cache_get_oldest_packet,
}
use jack_example_tools.Netjack.Cache.Valid.{Each, Unique, IsCache}
use jack_example_tools.Netjack.Cache.Lookup.{
  Ready, Newer, get_packet-Ready, get_packet_evicts, get_packet_evicts-Newer,
}
use jack_example_tools.Netjack.Cache.Release.{retrieve_held, Released, release_packet-Released}
use jack_example_tools.Netjack.Cache.Query.{
  packet_cache_get_next_available_framecnt, packet_cache_get_highest_available_framecnt,
}
use jack_example_tools.Netjack.Cache.Query.Highest.{HighestAnswer, highest_available_lem}
use jack_example_tools.Netjack.Cache.Query.Next.{NextAnswer, next_available_lem}
use jack_example_tools.Netjack.Cache.Socket.{Received, Drain, is_late, packet_cache_drain_socket}
use jack_example_tools.Netjack.Cache.Socket.Safe.{Drained}
use jack_example_tools.Netjack.Cache.Socket.Loop.{drain_socket-Drained}
use jack_example_tools.Netjack.Cache.Socket.Held.{Absent}
use jack_example_tools.Netjack.Cache.Socket.Arrival.{arrivals, numbers, last_time}
use jack_example_tools.Netjack.Cache.Socket.Retrieved.{retrieve-drain_socket}
use jack_example_tools.Netjack.Tests.Data.{packet, config, frame, empty, tx}

-- Two frames, both complete.
abbrev at_frame : ℕ → CachePacket
at_frame f = record empty { valid = true; framecnt = f }

abbrev two_of : ℕ → ℕ → PacketCache
two_of f g = record {
  packets = at_frame f ∷ at_frame g ∷ [];
  mtu = 58;
  master_address = 0;
  master_address_valid = false;
  last_framecnt_retreived = 4;
  last_framecnt_retreived_valid = true;
}

module _ (f g : ℕ) where
  packets-IsPacket : Each (λ i p. IsPacket 61 58 p) (two_of f g).packets
  packets-IsPacket zero p e = rw (sym (some_inj e)) (omega arith)
  packets-IsPacket (suc zero) p e = rw (sym (some_inj e)) (omega arith)
  packets-IsPacket (suc (suc i)) p e = cc

  packets-Unique : f ≢ g → Unique (two_of f g).packets
  packets-Unique ne zero zero p q e d vp vq same = refl
  packets-Unique ne zero (suc zero) p q e d vp vq same = absurd (ground arith)
  packets-Unique ne (suc zero) zero p q e d vp vq same = absurd (ground arith)
  packets-Unique ne (suc zero) (suc zero) p q e d vp vq same = refl
  packets-Unique ne zero (suc (suc j)) p q e d vp vq same = cc
  packets-Unique ne (suc zero) (suc (suc j)) p q e d vp vq same = cc
  packets-Unique ne (suc (suc i)) j p q e d vp vq same = cc

  two_of-IsCache : f ≢ g → IsCache 61 58 (two_of f g)
  two_of-IsCache ne = record {
    packets = packets-IsPacket;
    unique = packets-Unique ne;
    some_packet = omega arith;
    mtu_eq = refl;
  }

  frames_small :
      f ≤ 4294967295 → g ≤ 4294967295 → Each (λ i p. p.framecnt ≤ 4294967295) (two_of f g).packets
  frames_small low high zero p e = rw (sym (some_inj e)) low
  frames_small low high (suc zero) p e = rw (sym (some_inj e)) high
  frames_small low high (suc (suc i)) p e = cc

abbrev five : CachePacket
five = at_frame 5

abbrev nine : CachePacket
nine = at_frame 9

abbrev cache : PacketCache
cache = two_of 5 9

cache-IsCache : IsCache 61 58 cache
cache-IsCache = two_of-IsCache 5 9 (λ e. absurd (omega (arith, e)))

get_packet-Ready_example : Ready 61 58 7 cache (packet_cache_get_packet 4294967295 cache 7)
get_packet-Ready_example = get_packet-Ready 61 58 4294967295 7 config cache-IsCache

evicted : get_elem? cache.packets (packet_cache_get_packet 4294967295 cache 7).1 ≡ some five
unfolding packet_cache_get_packet find_index oldest_from packet_cache_get_free_packet
    packet_cache_get_oldest_packet
evicted = refl

get_packet_evicts_example : Each (λ i p. (p.valid ≡ true) × (5 ≤ p.framecnt)) cache.packets
get_packet_evicts_example =
    get_packet_evicts 61 58 4294967295 7 config cache-IsCache five
      (frames_small 5 9 (omega arith) (omega arith)) evicted refl (λ e. absurd (omega (arith, e)))

-- Frame 3 comes after frame 4294967290, and is pushed out.
abbrev wrapped_cache : PacketCache
wrapped_cache = two_of 4294967290 3

evicted_newer :
    get_elem? wrapped_cache.packets (packet_cache_get_packet 4294967295 wrapped_cache 4).1
    ≡ some (at_frame 3)
unfolding packet_cache_get_packet find_index oldest_from packet_cache_get_free_packet
    packet_cache_get_oldest_packet
evicted_newer = refl

get_packet_evicts-Newer_example : ((at_frame 4294967290).valid ≡ true) × Newer 3 4294967290
get_packet_evicts-Newer_example =
    get_packet_evicts-Newer 61 58 4294967295 4 config
      (two_of-IsCache 4294967290 3 (λ e. absurd (omega (arith, e)))) (at_frame 3)
      (at_frame 4294967290) 0 1 (at_frame 3) (frames_small 4294967290 3 (omega arith) (omega arith))
      evicted_newer refl (λ e. absurd (omega (arith, e))) refl refl (omega arith) (omega arith)

retrieve_held_example : packet_cache_retreive_packet_pointer cache 5 61 ≡ (
    if cache_packet_is_complete five
    then (
      record cache { last_framecnt_retreived_valid = true; last_framecnt_retreived = 5 },
      some (replicate 61 0, 0, 61),
    )
    else (cache, none))
retrieve_held_example = retrieve_held 61 58 config cache-IsCache 5 0 five refl refl refl 61

five_complete : cache_packet_is_complete five ≡ true
unfolding cache_packet_is_complete all_set
five_complete = refl

release_packet-Released_example :
    let (c', done) = packet_cache_release_packet cache 5 in
    (done ≡ true) × Released 61 58 5 cache c'
release_packet-Released_example =
    release_packet-Released 61 58 config cache-IsCache 5 0 five refl refl refl five_complete

next_available_example :
    NextAnswer 6
      (sub_u32 (4294967295 / 2) 1)
      cache.packets
      (packet_cache_get_next_available_framecnt 4294967295 cache 6)
next_available_example = next_available_lem 4294967295 6 cache (omega arith)

highest_available_example :
    HighestAnswer (five ∷ nine ∷ []) (packet_cache_get_highest_available_framecnt cache)
highest_available_example = highest_available_lem cache

abbrev state : Drain
state = record { cache = cache; rx_packet = replicate 58 0 }

abbrev datagram : Received
datagram = record { bytes = packet; sender = 77; now = 1000 }

drain_socket-Drained_example :
    (s' : Drain) × (packet_cache_drain_socket 4294967295 state (datagram ∷ []) ≡ some s')
    × Drained 61 58 cache s'.cache
drain_socket-Drained_example =
    drain_socket-Drained 61 58 4294967295 config state (datagram ∷ []) refl cache-IsCache
      (omega arith)

-- The datagrams of frame 7, one of them twice, push frame 5 out of the cache.
abbrev reads : List (ℕ × ℕ)
reads = (2, 10) ∷ (0, 11) ∷ (1, 12) ∷ (2, 13) ∷ []

seven_fresh : is_late cache 7 ≡ false
unfolding is_late
seven_fresh = refl

seven_Absent : Absent 7 cache
seven_Absent zero p e live same = absurd (ground arith)
seven_Absent (suc zero) p e live same = absurd (ground arith)
seven_Absent (suc (suc i)) p e live same = cc

retrieve-drain_socket_example :
    (grams : List (List ℕ)) × (s' : Drain) × (netjack_sendto tx packet 61 58 ≡ some grams)
    × (packet_cache_drain_socket 4294967295 state (arrivals 77 grams reads) ≡ some s')
    × ((packet_cache_retreive_packet_pointer s'.cache 7 61).1 ≡ (
        if all_in (fragment_count 61 58) (numbers reads)
        then some (numbered packet 0, last_time 0 reads, 61)
        else none))
retrieve-drain_socket_example =
    retrieve-drain_socket packet 61 58 7 config refl frame 4294967295 77 tx state reads refl refl
      cache-IsCache (λ e. absurd (ground arith)) seven_fresh seven_Absent (omega arith)

zeroed : ℕ → ℕ → Option (List ℕ)
zeroed n size = some (replicate size 0)
