-- ===== src/Netjack/Cache/Socket/Loop.antt =====
-- One round of `packet_cache_drain_socket`, and the whole loop.
use jack_example_tools.Base.{
  ℕ, ◌≤◌, ◌≡◌, inl, inr, refl, ◌∙◌, arith, false, some, List, [], ◌∷◌, All, length, take,
  Bool-cases, min, length-take,
}
use jack_example_tools.Bytes.{splice}
use jack_example_tools.Bytes.Laws.{length-splice}
use jack_example_tools.Netjack.Packet.{CachePacket, header_size, framecnt_at}
use jack_example_tools.Netjack.Packet.Valid.{IsConfig}
use jack_example_tools.Netjack.Packet.Total.{add_fragment-Kept, read32-some}
use jack_example_tools.Netjack.Cache.{PacketCache, packet_cache_get_packet, update_packet}
use jack_example_tools.Netjack.Cache.Valid.{IsCache}
use jack_example_tools.Netjack.Cache.Lookup.{get_packet-Ready}
use jack_example_tools.Netjack.Cache.Socket.{
  Received, Drain, is_stranger, setup_master, is_late, put_packet, accept, drain_round,
  packet_cache_drain_socket,
}
use jack_example_tools.Netjack.Cache.Socket.Safe.{
  Admissible, Drained, Drained-refl, Drained-trans, setup_master-Drained, put_packet-Drained,
}

pub get_packet_same :
    (max_frames f : ℕ) (c : PacketCache)
    → let r = packet_cache_get_packet max_frames c f in
      (r.0.master_address_valid ≡ c.master_address_valid)
      × (r.0.master_address ≡ c.master_address)
      × (r.0.last_framecnt_retreived ≡ c.last_framecnt_retreived)
      × (r.0.last_framecnt_retreived_valid ≡ c.last_framecnt_retreived_valid)
unfolding packet_cache_get_packet update_packet
get_packet_same max_frames f c = ground arith

module _ (pkt_size mtu max_frames : ℕ) (cfg : IsConfig pkt_size mtu) where
  accept-Drained :
      {c : PacketCache} (rx : List ℕ) (n f now : ℕ)
      → IsCache pkt_size mtu c
      → header_size ≤ n
      → n ≤ length rx
      → n ≤ pkt_size
      → is_late c f ≡ false
      → (c' : PacketCache) × (accept max_frames c rx n f now ≡ some c') × Drained pkt_size mtu c c'
  unfolding accept
  accept-Drained {c} rx n f now v low got small fresh =
      let r = packet_cache_get_packet max_frames c f in
      let rd = get_packet-Ready pkt_size mtu max_frames f cfg v in
      let (p, ran, k) =
        add_fragment-Kept pkt_size mtu cfg (rd.cache.packets r.1 rd.packet rd.at) rx n low got
          small in
      let stamped : CachePacket = record p { recv_timestamp = now } in
      (
        put_packet r.0 r.1 stamped,
        rw (rd.at, ran),
        put_packet-Drained pkt_size mtu f r stamped rd (get_packet_same max_frames f c)
            (record {
              packet = record {
                size_eq = k.packet.size_eq;
                mtu_eq = k.packet.mtu_eq;
                count_eq = k.packet.count_eq;
                flags = k.packet.flags;
                buf = k.packet.buf;
              };
              valid_eq = k.valid_eq;
              frame_eq = k.frame_eq;
            })
            fresh,
      )

  -- The buffer after `recvfrom`.
  module _ (s : Drain) (e : Received) (room : length s.rx_packet ≡ mtu)
      (v : IsCache pkt_size mtu s.cache) (ok : Admissible pkt_size mtu e) where
    abbrev got : List ℕ
    got = take s.cache.mtu e.bytes

    abbrev rx : List ℕ
    rx = splice s.rx_packet 0 got

    length-got : length got ≡ min mtu (length e.bytes)
    length-got = rw (← v.mtu_eq) (length-take s.cache.mtu e.bytes)

    length-rx : length rx ≡ mtu
    length-rx = length-splice s.rx_packet 0 got (omega (arith, length-got)) ∙ room

    drain_round_lem :
        (s' : Drain) × (drain_round max_frames s e ≡ some s')
        × (length s'.rx_packet ≡ mtu)
        × Drained pkt_size mtu s.cache s'.cache
    unfolding drain_round
    drain_round_lem = elim (Bool-cases (is_stranger s.cache e.sender)) [
      | inl stranger ↦ (
        record { cache = s.cache; rx_packet = rx },
        rw stranger,
        length-rx,
        Drained-refl pkt_size mtu v,
      )
      | inr known ↦
          let c = setup_master s.cache e.sender in
          let d = setup_master-Drained pkt_size mtu e.sender v in
          let (f, read) = read32-some rx framecnt_at (omega (arith, length-rx, cfg.mtu_min)) in
          elim (Bool-cases (is_late c f)) [
            | inl late ↦
                (record { cache = c; rx_packet = rx }, rw (known, read, late), length-rx, d)
            | inr fresh ↦
                let (c', ran, d') =
                  accept-Drained rx (length got) f e.now d.cache
                    (omega (arith, length-got, cfg.mtu_min, ok.0))
                    (omega (arith, length-got, length-rx)) (omega (arith, length-got, ok.1))
                    fresh in
                (
                  record { cache = c'; rx_packet = rx },
                  rw (known, read, fresh, ran),
                  length-rx,
                  Drained-trans pkt_size mtu d d',
                )
          ]
    ]

  -- Draining a socket of admissible datagrams never accesses memory outside a buffer. The cache
  -- stays well formed, a master once set stays the master, and every frame that is new in the
  -- cache is later than the last one retrieved.
  pub drain_socket-Drained :
      (s : Drain) (es : List Received)
      → length s.rx_packet ≡ mtu
      → IsCache pkt_size mtu s.cache
      → All (Admissible pkt_size mtu) es
      → (s' : Drain) × (packet_cache_drain_socket max_frames s es ≡ some s')
        × Drained pkt_size mtu s.cache s'.cache
  unfolding packet_cache_drain_socket
  drain_socket-Drained s [] room v ok = (s, refl, Drained-refl pkt_size mtu v)
  drain_socket-Drained s (e ∷ es) room v (ok, oks) =
      let (t, ran, room', d) = drain_round_lem s e room v ok in
      let (u, ran', d') = drain_socket-Drained t es room' d.cache oks in
      (u, rw ran ran', Drained-trans pkt_size mtu d d')
