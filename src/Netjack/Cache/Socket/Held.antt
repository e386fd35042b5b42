-- ===== src/Netjack/Cache/Socket/Held.antt =====
-- The packet of one frame in the cache while its datagrams arrive.
use jack_example_tools.Base.{
  ℕ, ◌≤◌, ◌<◌, ◌≡◌, ◌≢◌, ◌⊎◌, inl, inr, refl, sym, ap, ◌∙◌, subst, arith, true, false, some, List,
  [], ◌∷◌, ◌++◌, length, get_elem?, some_inj, get_elem?-set_self, lt_of_get_elem?,
}
use jack_example_tools.Bytes.{read32}
use jack_example_tools.Netjack.Packet.{
  CachePacket, header_size, framecnt_at, cache_packet_reset, cache_packet_set_framecnt,
  cache_packet_add_fragment,
}
use jack_example_tools.Netjack.Packet.Valid.{
  IsConfig, IsPacket, fragment_count, cache_packet_reset-IsPacket,
}
use jack_example_tools.Netjack.Packet.Total.{Kept, add_fragment-Kept}
use jack_example_tools.Netjack.Packet.Prefix.{add_fragment_within}
use jack_example_tools.Netjack.Send.Fragments.{IsFragment, numbered}
use jack_example_tools.Netjack.Transfer.Store.{Partial, set_framecnt-Partial}
use jack_example_tools.Netjack.Transfer.Whole.{add_fragment-Partial}
use jack_example_tools.Netjack.Cache.{PacketCache, holds_frame, packet_cache_get_packet}
use jack_example_tools.Netjack.Cache.Find.{find_index-none}
use jack_example_tools.Netjack.Cache.Valid.{Each, IsCache}
use jack_example_tools.Netjack.Cache.Lookup.{
  Located, present, replaced, get_packet-Located, get_packet-Ready,
}
use jack_example_tools.Netjack.Cache.Socket.{is_late, put_packet, accept}
use jack_example_tools.Netjack.Cache.Socket.Safe.{Drained, put_packet-Drained}
use jack_example_tools.Netjack.Cache.Socket.Loop.{get_packet_same}

-- No packet in use is of frame `f`.
abbrev pub Absent : ℕ → PacketCache → Type 0
Absent f c = Each (λ i p. p.valid ≡ true → p.framecnt ≢ f) c.packets

-- The cache after the fragments `ks` of the packet of frame `f`, of which the last came at time `t`.
pub data Holding (packet : List ℕ) (pkt_size mtu f : ℕ) (ks : List ℕ) (t : ℕ) (c : PacketCache)
    : Type 0 where
  absent : ks ≡ [] → Absent f c → Holding packet pkt_size mtu f ks t c
  held :
      (i : ℕ) (p : CachePacket)
      → get_elem? c.packets i ≡ some p
      → p.valid ≡ true
      → Partial pkt_size mtu (numbered packet 0) f ks p
      → p.recv_timestamp ≡ t
      → Holding packet pkt_size mtu f ks t c

module _ (packet : List ℕ) (pkt_size mtu f : ℕ) (cfg : IsConfig pkt_size mtu)
    (full : length packet ≡ pkt_size) (frame : read32 packet framecnt_at ≡ some f)
    (max_frames : ℕ) where
  made-Partial :
      (p new : CachePacket)
      → new ≡ cache_packet_set_framecnt p f
        ⊎ new ≡ cache_packet_set_framecnt (cache_packet_reset p) f
      → IsPacket pkt_size mtu p
      → Partial pkt_size mtu (numbered packet 0) f [] new
  made-Partial p new made v = elim made [
    | inl e ↦ rw e (set_framecnt-Partial pkt_size mtu cfg (numbered packet 0) f p v)
    | inr e ↦ rw e (
        set_framecnt-Partial pkt_size mtu cfg (numbered packet 0) f (cache_packet_reset p)
          (cache_packet_reset-IsPacket pkt_size mtu cfg v))
  ]

  -- The packet that the look-up gives for the frame holds the fragments that arrived before.
  located :
      {ks : List ℕ} {t : ℕ} {c : PacketCache} {r : PacketCache × ℕ}
      → Holding packet pkt_size mtu f ks t c
      → IsCache pkt_size mtu c
      → Located max_frames f c r
      → (p : CachePacket) × (get_elem? r.0.packets r.1 ≡ some p)
        × Partial pkt_size mtu (numbered packet 0) f ks p
  located (absent e nowhere) v (present i p at live fr q) = absurd (nowhere i p at live fr)
  located {c = c} (absent e nowhere) v (replaced i p new at free made evicts q) =
      rw (q, e)
        (
          new,
          get_elem?-set_self c.packets i new (lt_of_get_elem? c.packets i at),
          made-Partial p new made (v.packets i p at),
        )
  located (held i p at live part time) v (present j q at' live' fr e) =
      let same : i ≡ j = v.unique i j p q at at' live live' (part.frame ∙ sym fr) in
      rw e (p, rw same at at, part)
  located {c = c} (held i p at live part time) v (replaced j q new at' free made evicts e) =
      let clash = find_index-none (holds_frame f) c.packets i free at in
      let fr = part.frame in absurd (ground arith)

  -- One more fragment in a packet, with the time of its arrival.
  one_more :
      {ks : List ℕ} (k : ℕ) (gram rest : List ℕ) (now : ℕ) {p : CachePacket}
      → Partial pkt_size mtu (numbered packet 0) f ks p
      → k < fragment_count pkt_size mtu
      → IsFragment packet pkt_size mtu k gram
      → (q : CachePacket) × (cache_packet_add_fragment p (gram ++ rest) (length gram) ≡ some q)
        × Kept pkt_size mtu p (record q { recv_timestamp = now })
        × Partial pkt_size mtu (numbered packet 0) f (k ∷ ks) (record q { recv_timestamp = now })
  one_more {ks} k gram rest now {p} part inside g =
      let long : header_size ≤ length gram = omega (arith, g.size) in
      let small : length gram ≤ pkt_size = omega (arith, g.size, cfg.size_min) in
      let (q, added, more) =
        add_fragment-Partial packet pkt_size mtu f cfg full frame ks k gram part inside g in
      let (q', ran, kept) =
        add_fragment-Kept pkt_size mtu cfg part.packet gram (length gram) long (omega arith)
          small in
      let same : q' ≡ q = some_inj (sym ran ∙ added) in
      let live : q.valid ≡ p.valid = ap (λ r. r.valid) (sym same) ∙ kept.valid_eq in
      let sound : IsPacket pkt_size mtu (record q { recv_timestamp = now }) = record {
        size_eq = more.packet.size_eq;
        mtu_eq = more.packet.mtu_eq;
        count_eq = more.packet.count_eq;
        flags = more.packet.flags;
        buf = more.packet.buf;
      } in
      (
        q,
        add_fragment_within p gram rest long (omega (arith, small, cfg.size_max)) ∙ added,
        record { packet = sound; valid_eq = live; frame_eq = more.frame ∙ sym part.frame },
        record { packet = sound; frame = more.frame; flag = more.flag; bytes = more.bytes },
      )

  -- The datagram of one more fragment goes to the packet.
  pub accept-Holding :
      {ks : List ℕ} {t : ℕ} {c : PacketCache} (k : ℕ) (gram rest : List ℕ) (now : ℕ)
      → IsCache pkt_size mtu c
      → is_late c f ≡ false
      → Holding packet pkt_size mtu f ks t c
      → k < fragment_count pkt_size mtu
      → IsFragment packet pkt_size mtu k gram
      → (c' : PacketCache) × (accept max_frames c (gram ++ rest) (length gram) f now ≡ some c')
        × Drained pkt_size mtu c c'
        × Holding packet pkt_size mtu f (k ∷ ks) now c'
  unfolding accept put_packet
  accept-Holding {ks} {t} {c} k gram rest now v fresh h inside g =
      let r = packet_cache_get_packet max_frames c f in
      let rd = get_packet-Ready pkt_size mtu max_frames f cfg v in
      let (p, at, part) = located h v (get_packet-Located max_frames f c v.some_packet) in
      let same : p ≡ rd.packet = some_inj (sym at ∙ rd.at) in
      let (q, added, kept, more) = one_more k gram rest now part inside g in
      let stamped : CachePacket = record q { recv_timestamp = now } in
      let kept' : Kept pkt_size mtu rd.packet stamped =
        subst (λ x. Kept pkt_size mtu x stamped) same kept in
      (
        put_packet r.0 r.1 stamped,
        rw (at, added),
        put_packet-Drained pkt_size mtu f r stamped rd (get_packet_same max_frames f c) kept' fresh,
        held r.1 stamped
            (get_elem?-set_self r.0.packets r.1 stamped (lt_of_get_elem? r.0.packets r.1 at))
            (kept'.valid_eq ∙ rd.in_use) more refl,
      )
