-- ===== src/Netjack/Cache/Socket/Safe.antt =====
-- Draining a socket: no access outside a buffer, the cache stays well formed, the master stays the
-- master, and no frame that was already retrieved comes back.
use jack_example_tools.Base.{
  ℕ, ◌≤◌, ◌<◌, ◌≡◌, ◌⊎◌, inl, inr, refl, ap, sym, ◌∙◌, arith, true, false, some, length, set,
  get_elem?, Bool-cases, min, length-set, get_elem?-set_cases,
}
use jack_example_tools.Netjack.Packet.{CachePacket, header_size}
use jack_example_tools.Netjack.Packet.Valid.{IsPacket}
use jack_example_tools.Netjack.Packet.Total.{Kept}
use jack_example_tools.Netjack.Cache.{PacketCache}
use jack_example_tools.Netjack.Cache.Valid.{Unique, IsCache, Each-set}
use jack_example_tools.Netjack.Cache.Lookup.{Ready}
use jack_example_tools.Netjack.Cache.Socket.{Received, setup_master, is_late, put_packet}

-- A datagram with a whole header and no more bytes than a packet, as far as it is received.
abbrev pub Admissible : ℕ → ℕ → Received → Type 0
Admissible pkt_size mtu e = (header_size ≤ length e.bytes) × (min mtu (length e.bytes) ≤ pkt_size)

-- What one round, or all of them, does to the cache.
pub record Drained (pkt_size mtu : ℕ) (c c' : PacketCache) : Type 0 where
  pub cache : IsCache pkt_size mtu c'
  pub master :
      c.master_address_valid ≡ true
      → (c'.master_address_valid ≡ true) × (c'.master_address ≡ c.master_address)
  pub retreived :
      (c'.last_framecnt_retreived ≡ c.last_framecnt_retreived)
      × (c'.last_framecnt_retreived_valid ≡ c.last_framecnt_retreived_valid)
  pub frames :
      (i : ℕ) (p : CachePacket)
      → get_elem? c'.packets i ≡ some p
      → p.valid ≡ true
      → ((q : CachePacket) × (get_elem? c.packets i ≡ some q)
          × (q.valid ≡ true)
          × (q.framecnt ≡ p.framecnt))
        ⊎ (c.last_framecnt_retreived_valid ≡ true → c.last_framecnt_retreived < p.framecnt)

module _ (pkt_size mtu : ℕ) where
  pub Drained-refl : {c : PacketCache} → IsCache pkt_size mtu c → Drained pkt_size mtu c c
  Drained-refl v = record {
    cache = v;
    master = λ m. (m, refl);
    retreived = (refl, refl);
    frames = λ i p e live. inl (p, e, live, refl);
  }

  pub Drained-trans :
      {c d e : PacketCache}
      → Drained pkt_size mtu c d
      → Drained pkt_size mtu d e
      → Drained pkt_size mtu c e
  Drained-trans x y = record {
    cache = y.cache;
    master = λ m. let (v, a) = x.master m in let (w, b) = y.master v in (w, b ∙ a);
    retreived = (y.retreived.0 ∙ x.retreived.0, y.retreived.1 ∙ x.retreived.1);
    frames = λ i p e live. elim (y.frames i p e live) [
      | inr late ↦ inr (λ h. rw x.retreived.0 at (late (x.retreived.1 ∙ h)))
      | inl (q, at, lq, same) ↦ elim (x.frames i q at lq) [
        | inl (r, at', lr, same') ↦ inl (r, at', lr, same' ∙ same)
        | inr late ↦ inr (λ h. rw same at (late h))
      ]
    ];
  }

  setup_master_known :
      (c : PacketCache) (sender : ℕ) → c.master_address_valid ≡ true → setup_master c sender ≡ c
  unfolding setup_master
  setup_master_known c sender m = ground arith

  setup_master_new :
      (c : PacketCache) (sender : ℕ)
      → c.master_address_valid ≡ false
      → setup_master c sender ≡ record c { master_address = sender; master_address_valid = true }
  unfolding setup_master
  setup_master_new c sender m = ground arith

  pub setup_master-Drained :
      {c : PacketCache} (sender : ℕ)
      → IsCache pkt_size mtu c
      → Drained pkt_size mtu c (setup_master c sender)
  setup_master-Drained {c} sender v = elim (Bool-cases c.master_address_valid) [
    | inl m ↦ rw (setup_master_known c sender m) (Drained-refl v)
    | inr n ↦ rw (setup_master_new c sender n) (record {
      cache = record {
        packets = v.packets;
        unique = v.unique;
        some_packet = v.some_packet;
        mtu_eq = v.mtu_eq;
      };
      master = λ m. cc;
      retreived = (refl, refl);
      frames = λ i p e live. inl (p, e, live, refl);
    })
  ]

  -- The packet of the frame asked for, rewritten in place with its state of use and its frame.
  pub put_packet-Drained :
      {c : PacketCache} (f : ℕ) (r : PacketCache × ℕ) (new : CachePacket)
      → (rd : Ready pkt_size mtu f c r)
      → (r.0.master_address_valid ≡ c.master_address_valid)
        × (r.0.master_address ≡ c.master_address)
        × (r.0.last_framecnt_retreived ≡ c.last_framecnt_retreived)
        × (r.0.last_framecnt_retreived_valid ≡ c.last_framecnt_retreived_valid)
      → Kept pkt_size mtu rd.packet new
      → is_late c f ≡ false
      → Drained pkt_size mtu c (put_packet r.0 r.1 new)
  unfolding put_packet is_late
  put_packet-Drained {c} f r new rd same k fresh = record {
    cache = record {
      packets =
          Each-set (λ i p. IsPacket pkt_size mtu p) r.0.packets r.1 new rd.cache.packets k.packet;
      unique = unique;
      some_packet = omega (arith, length-set r.0.packets r.1 new, rd.cache.some_packet);
      mtu_eq = rd.cache.mtu_eq;
    };
    master = λ m. (same.0 ∙ m, same.1);
    retreived = (same.2, same.3);
    frames = frames;
  }
    where
      old_of :
          (i : ℕ) (p : CachePacket)
          → get_elem? (set r.0.packets r.1 new) i ≡ some p
          → (q : CachePacket) × (get_elem? r.0.packets i ≡ some q)
            × (q.valid ≡ p.valid)
            × (q.framecnt ≡ p.framecnt)
      old_of i p e = elim (get_elem?-set_cases r.0.packets r.1 i new e) [
        | inl (at, eq) ↦
            (rd.packet, rw (← at) rd.at, rw eq (sym k.valid_eq), rw eq (sym k.frame_eq))
        | inr (ne, old) ↦ (p, old, refl, refl)
      ]

      unique : Unique (set r.0.packets r.1 new)
      unique i j p q e d vp vq eq =
          let (x, ex, vx, fx) = old_of i p e in
          let (y, ey, vy, fy) = old_of j q d in
          rd.cache.unique i j x y ex ey (vx ∙ vp) (vy ∙ vq) (fx ∙ eq ∙ sym fy)

      frames :
          (i : ℕ) (p : CachePacket)
          → get_elem? (set r.0.packets r.1 new) i ≡ some p
          → p.valid ≡ true
          → ((q : CachePacket) × (get_elem? c.packets i ≡ some q)
              × (q.valid ≡ true)
              × (q.framecnt ≡ p.framecnt))
            ⊎ (c.last_framecnt_retreived_valid ≡ true → c.last_framecnt_retreived < p.framecnt)
      frames i p e live = elim (get_elem?-set_cases r.0.packets r.1 i new e) [
        | inl (at, eq) ↦ inr (λ h.
            let fr : p.framecnt ≡ f = ap (λ t. t.framecnt) eq ∙ k.frame_eq ∙ rd.frame in
            rw fr (ground arith))
        | inr (ne, old) ↦ inl (p, sym (rd.others i ne) ∙ old, live, refl)
      ]
