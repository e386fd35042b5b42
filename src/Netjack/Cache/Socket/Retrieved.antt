-- ===== src/Netjack/Cache/Socket/Retrieved.antt =====
-- From `netjack_sendto` to `packet_cache_retreive_packet_pointer`: what a client gets of a packet whose
-- datagrams were drained into its cache.
use jack_example_tools.Base.{
  ℕ, zero, suc, ◌+◌, ◌<◌, ◌≡◌, inl, inr, refl, sym, ◌∙◌, arith, true, false, none, some,
  if◌then◌else◌, Bool-cases, Option-cases, List, [], All, length,
}
use mathlib.Core.List.{reverse_aux}
use jack_example_tools.Bytes.{read32}
use jack_example_tools.Netjack.Packet.{framecnt_at}
use jack_example_tools.Netjack.Packet.Valid.{IsConfig, fragment_count, fragment_count_pos}
use jack_example_tools.Netjack.Send.{netjack_sendto}
use jack_example_tools.Netjack.Send.Fragments.{numbered}
use jack_example_tools.Netjack.Send.Loop.{netjack_sendto-Sent}
use jack_example_tools.Netjack.Transfer.Blocks.{has}
use jack_example_tools.Netjack.Transfer.Whole.{has-reverse_aux, all_in, Partial-received}
use jack_example_tools.Netjack.Cache.{
  PacketCache, find_index, holds_frame, packet_cache_retreive_packet_pointer,
}
use jack_example_tools.Netjack.Cache.Find.{find_index-some}
use jack_example_tools.Netjack.Cache.Valid.{IsCache}
use jack_example_tools.Netjack.Cache.Release.{retrieve_held}
use jack_example_tools.Netjack.Cache.Socket.{Drain, is_late, packet_cache_drain_socket}
use jack_example_tools.Netjack.Cache.Socket.Held.{Absent, Holding, absent, held}
use jack_example_tools.Netjack.Cache.Socket.Arrival.{
  arrivals, numbers, last_time, drain_socket-Arriving,
}

none_in : (n : ℕ) (ks : List ℕ) → 0 < n → ((k : ℕ) → has k ks ≡ false) → all_in n ks ≡ false
none_in zero ks h none_there = absurd (omega arith)
none_in (suc n) ks h none_there = ground (arith, none_there n)

-- A frame that no packet holds is not retrieved.
retrieve-Absent :
    (f : ℕ) (c : PacketCache) (size : ℕ)
    → Absent f c
    → (packet_cache_retreive_packet_pointer c f size).1 ≡ none
unfolding packet_cache_retreive_packet_pointer
retrieve-Absent f c size nowhere = elim (Option-cases (find_index (holds_frame f) c.packets)) [
  | inl e ↦ rw (e, packet_cache_retreive_packet_pointer) refl
  | inr (i, e) ↦
      let (p, at, holds) = find_index-some (holds_frame f) c.packets e in
      absurd (ground (arith, nowhere i p at))
]

module _ (packet : List ℕ) (pkt_size mtu f : ℕ) (cfg : IsConfig pkt_size mtu)
    (full : length packet ≡ pkt_size) (frame : read32 packet framecnt_at ≡ some f) where
  -- What is retrieved after the fragments `ks`, in the order of `ls`.
  Holding-retrieved :
      (ks ls : List ℕ) (t : ℕ) {c : PacketCache}
      → ((k : ℕ) → has k ls ≡ has k ks)
      → IsCache pkt_size mtu c
      → Holding packet pkt_size mtu f ls t c
      → (packet_cache_retreive_packet_pointer c f pkt_size).1 ≡ (
          if all_in (fragment_count pkt_size mtu) ks
          then some (numbered packet 0, t, pkt_size)
          else none)
  Holding-retrieved ks ls t {c} same v (absent e nowhere) =
      rw
        (none_in (fragment_count pkt_size mtu) ks (fragment_count_pos pkt_size mtu cfg)
          (λ k. sym (rw e at (same k))))
        (retrieve-Absent f c pkt_size nowhere)
  Holding-retrieved ks ls t {c} same v (held i p at live part time) =
      let (complete, whole) =
        Partial-received packet pkt_size mtu f cfg full frame ks ls part same in
      let got = retrieve_held pkt_size mtu cfg v f i p at live part.frame pkt_size in
      elim (Bool-cases (all_in (fragment_count pkt_size mtu) ks)) [
        | inl all ↦ rw (got, complete, all, whole all, time)
        | inr missing ↦ rw (got, complete, missing)
      ]

  -- The datagrams that netjack_sendto makes of a packet of frame `f` are read by
  -- packet_cache_drain_socket, in any order and with repetitions, into a well-formed cache where no
  -- packet in use is of this frame, where the frame is later than the one last retrieved, if any, and
  -- where their sender is the master, if there is one. This succeeds, and
  -- packet_cache_retreive_packet_pointer then hands out the packet sent, with 0 for the fragment number
  -- of its header, the time of the last datagram and the size of the packet if every fragment number
  -- has arrived; else it hands out nothing.
  pub retrieve-drain_socket :
      (max_frames sender : ℕ) (tx : List ℕ) (s : Drain) (kts : List (ℕ × ℕ))
      → length tx ≡ mtu + 10
      → length s.rx_packet ≡ mtu
      → IsCache pkt_size mtu s.cache
      → (s.cache.master_address_valid ≡ true → s.cache.master_address ≡ sender)
      → is_late s.cache f ≡ false
      → Absent f s.cache
      → All (λ k. k < fragment_count pkt_size mtu) (numbers kts)
      → (grams : List (List ℕ)) × (s' : Drain) × (netjack_sendto tx packet pkt_size mtu
          ≡ some grams)
        × (packet_cache_drain_socket max_frames s (arrivals sender grams kts) ≡ some s')
        × ((packet_cache_retreive_packet_pointer s'.cache f pkt_size).1 ≡ (
            if all_in (fragment_count pkt_size mtu) (numbers kts)
            then some (numbered packet 0, last_time 0 kts, pkt_size)
            else none))
  retrieve-drain_socket max_frames sender tx s kts long room v master fresh nowhere inside =
      let (grams, sent, each) = netjack_sendto-Sent packet pkt_size mtu cfg full tx long in
      let (s', ran, a) =
        drain_socket-Arriving packet pkt_size mtu f cfg full frame max_frames sender grams each kts
          [] 0 s inside
          (record {
            room = room;
            cache = v;
            master = master;
            fresh = fresh;
            holding = absent refl nowhere;
          }) in
      (
        grams,
        s',
        sent,
        ran,
        Holding-retrieved (numbers kts) (reverse_aux (numbers kts) []) (last_time 0 kts)
            (λ k. has-reverse_aux k (numbers kts) [] ∙ ground arith) a.cache a.holding,
      )
