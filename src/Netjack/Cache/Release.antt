-- ===== src/Netjack/Cache/Release.antt =====
-- Retrieval and release: what a client gets, and what is left in the cache behind it.
use jack_example_tools.Base.{
  ℕ, zero, suc, ◌<◌, ◌≡◌, ◌≢◌, inl, inr, refl, ap, sym, ◌∙◌, arith, true, none, some, List, [], ◌∷◌,
  map, if◌then◌else◌, ltb, length-map, set, get_elem?, ◌&&◌, Bool-cases, Option-cases, some_inj,
  get_elem?-set_cases, get_elem?-set_ne, length-set,
}
use jack_example_tools.Netjack.Packet.{CachePacket, cache_packet_reset, cache_packet_is_complete}
use jack_example_tools.Netjack.Packet.Valid.{IsConfig, IsPacket, cache_packet_reset-IsPacket}
use jack_example_tools.Netjack.Cache.{
  PacketCache, find_index, holds_frame, clear_old, packet_cache_clear_old_packets,
  packet_cache_retreive_packet_pointer, packet_cache_release_packet,
}
use jack_example_tools.Netjack.Cache.Find.{find_index-some, find_index-none}
use jack_example_tools.Netjack.Cache.Valid.{Each, IsCache, update_packet-some, Unique-set, Each-set}

get_elem?-map :
    (g : CachePacket → CachePacket) (ps : List CachePacket) (i : ℕ) {q : CachePacket}
    → get_elem? (map g ps) i ≡ some q
    → (p : CachePacket) × (get_elem? ps i ≡ some p) × (q ≡ g p)
get_elem?-map g [] i e = cc
get_elem?-map g (p ∷ ps) zero e = (p, refl, some_inj (sym e))
get_elem?-map g (p ∷ ps) (suc i) e = get_elem?-map g ps i e

get_elem?-map-some :
    (g : CachePacket → CachePacket) (ps : List CachePacket) (i : ℕ) {p : CachePacket}
    → get_elem? ps i ≡ some p
    → get_elem? (map g ps) i ≡ some (g p)
get_elem?-map-some g [] i e = cc
get_elem?-map-some g (q ∷ ps) zero e = rw (some_inj e)
get_elem?-map-some g (q ∷ ps) (suc i) e = get_elem?-map-some g ps i e

module _ (pkt_size mtu : ℕ) (cfg : IsConfig pkt_size mtu) {c : PacketCache}
    (v : IsCache pkt_size mtu c) (f : ℕ) where
  reset_at :
      (i : ℕ) (p : CachePacket)
      → get_elem? c.packets i ≡ some p
      → IsCache pkt_size mtu (record c { packets = set c.packets i (cache_packet_reset p) })
  unfolding cache_packet_reset
  reset_at i p e = record {
    packets =
        Each-set (λ i p. IsPacket pkt_size mtu p) c.packets i (cache_packet_reset p) v.packets
          (cache_packet_reset-IsPacket pkt_size mtu cfg (v.packets i p e));
    unique = Unique-set c.packets i (cache_packet_reset p) v.unique (λ w. cc);
    some_packet = omega (arith, length-set c.packets i (cache_packet_reset p), v.some_packet);
    mtu_eq = v.mtu_eq;
  }

  clear_old_kept : (p : CachePacket) → (clear_old f p).valid ≡ true → clear_old f p ≡ p
  unfolding cache_packet_reset
  clear_old_kept p = ground arith

  clear_old-IsPacket :
      (p : CachePacket) → IsPacket pkt_size mtu p → IsPacket pkt_size mtu (clear_old f p)
  clear_old-IsPacket p w = elim (Bool-cases (p.valid && ltb p.framecnt f)) [
    | inl old ↦ rw old (cache_packet_reset-IsPacket pkt_size mtu cfg w)
    | inr kept ↦ rw kept w
  ]

  -- Clearing old packets keeps the cache well formed, and leaves no frame below `f` in use.
  pub clear_old-IsCache : IsCache pkt_size mtu (packet_cache_clear_old_packets c f)
  unfolding packet_cache_clear_old_packets
  clear_old-IsCache = record {
    packets = λ i q e.
        let (p, at, eq) = get_elem?-map (clear_old f) c.packets i e in
        rw eq (clear_old-IsPacket p (v.packets i p at));
    unique = λ i j q r e d vq vr same.
        let (p, at, eq) = get_elem?-map (clear_old f) c.packets i e in
        let (s, at', eq') = get_elem?-map (clear_old f) c.packets j d in
        let q_p : q ≡ p = eq ∙ clear_old_kept p (rw eq at vq) in
        let r_s : r ≡ s = eq' ∙ clear_old_kept s (rw eq' at vr) in
        v.unique i j p s at at' (rw q_p at vq) (rw r_s at vr)
          (ap (λ t. t.framecnt) (sym q_p) ∙ same ∙ ap (λ t. t.framecnt) r_s);
    some_packet = omega (arith, length-map c.packets (clear_old f), v.some_packet);
    mtu_eq = v.mtu_eq;
  }

  -- The search for a frame in use finds the one packet that holds it.
  found_at :
      (i : ℕ) (p : CachePacket)
      → get_elem? c.packets i ≡ some p
      → p.valid ≡ true
      → p.framecnt ≡ f
      → find_index (holds_frame f) c.packets ≡ some i
  found_at i p e live frame = elim (Option-cases (find_index (holds_frame f) c.packets)) [
    | inl absent ↦
        let clash = find_index-none (holds_frame f) c.packets i absent e in absurd (ground arith)
    | inr (k, found) ↦
        let (q, at, holds) = find_index-some (holds_frame f) c.packets found in
        let same : k ≡ i = v.unique k i q p at e (ground arith) live (ground arith) in
        rw (← same) found
  ]

  module _ (i : ℕ) (p : CachePacket) (e : get_elem? c.packets i ≡ some p) (live : p.valid ≡ true)
      (frame : p.framecnt ≡ f) where
    -- Retrieval hands out the packet that holds the frame if it is complete, and remembers the
    -- frame; else it changes nothing.
    pub retrieve_held :
        (pkt_size' : ℕ)
        → packet_cache_retreive_packet_pointer c f pkt_size' ≡ (
            if cache_packet_is_complete p
            then (
              record c { last_framecnt_retreived_valid = true; last_framecnt_retreived = f },
              some (p.packet_buf, p.recv_timestamp, pkt_size'),
            )
            else (c, none))
    unfolding packet_cache_retreive_packet_pointer
    retrieve_held pkt_size' =
        rw (found_at i p e live frame, packet_cache_retreive_packet_pointer)
          (rw (e, packet_cache_retreive_packet_pointer))

    release_complete :
        cache_packet_is_complete p ≡ true
        → packet_cache_release_packet c f ≡ (
          packet_cache_clear_old_packets
              (record c { packets = set c.packets i (cache_packet_reset p) })
              f,
          true,
        )
    unfolding packet_cache_release_packet
    release_complete full =
        rw (found_at i p e live frame, packet_cache_release_packet)
          (rw (e, packet_cache_release_packet)
            (rw full (
              ap (λ r. (packet_cache_clear_old_packets r f, true))
                (update_packet-some i cache_packet_reset c e))))

-- The cache behind a release of frame `f`: well formed, nothing up to `f` is left in use, and
-- every later frame stands where it stood.
pub record Released (pkt_size mtu f : ℕ) (c c' : PacketCache) : Type 0 where
  pub cache : IsCache pkt_size mtu c'
  pub gone : Each (λ i q. q.valid ≡ true → f < q.framecnt) c'.packets
  pub stay :
      (j : ℕ) (q : CachePacket)
      → get_elem? c.packets j ≡ some q
      → f < q.framecnt
      → get_elem? c'.packets j ≡ some q

module _ (pkt_size mtu : ℕ) (cfg : IsConfig pkt_size mtu) {c : PacketCache}
    (v : IsCache pkt_size mtu c) (f i : ℕ) (p : CachePacket) (e : get_elem? c.packets i ≡ some p)
    (live : p.valid ≡ true) (frame : p.framecnt ≡ f) where
  gone_at :
      Each
        (λ j q. q.valid ≡ true → f < q.framecnt)
        (map (clear_old f) (set c.packets i (cache_packet_reset p)))
  unfolding cache_packet_reset
  gone_at j q at lq =
      let (r, at', eq) =
        get_elem?-map (clear_old f) (set c.packets i (cache_packet_reset p)) j at in
      elim (get_elem?-set_cases c.packets i j (cache_packet_reset p) at') [
        | inl (same, reset) ↦ ground arith
        | inr (ne, old) ↦
            let apart : r.valid ≡ true → r.framecnt ≢ f =
              λ lr s. ne (v.unique i j p r e old live lr (frame ∙ sym s)) in
            ground (arith, apart)
      ]

  stay_at :
      (j : ℕ) (q : CachePacket)
      → get_elem? c.packets j ≡ some q
      → f < q.framecnt
      → get_elem? (map (clear_old f) (set c.packets i (cache_packet_reset p))) j ≡ some q
  stay_at j q at later =
      let ne : i ≢ j = λ s.
        let same = some_inj (sym e ∙ rw (← s) at at) in
        let fr : p.framecnt ≡ q.framecnt = ap (λ t. t.framecnt) same in
        absurd (omega (arith, fr, frame)) in
      get_elem?-map-some (clear_old f) (set c.packets i (cache_packet_reset p)) j
        (get_elem?-set_ne c.packets (cache_packet_reset p) ne ∙ at)
      ∙ ground arith

  -- The release of a complete frame succeeds, frees it with all that is older, and keeps the rest.
  pub release_packet-Released :
      cache_packet_is_complete p ≡ true
      → let (c', done) = packet_cache_release_packet c f in
        (done ≡ true) × Released pkt_size mtu f c c'
  unfolding packet_cache_clear_old_packets
  release_packet-Released full = rw (release_complete pkt_size mtu cfg v f i p e live frame full) (
    refl,
    record {
      cache = clear_old-IsCache pkt_size mtu cfg (reset_at pkt_size mtu cfg v f i p e) f;
      gone = gone_at;
      stay = stay_at;
    },
  )
