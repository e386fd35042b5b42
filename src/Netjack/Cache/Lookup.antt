-- ===== src/Netjack/Cache/Lookup.antt =====
-- `packet_cache_get_packet`: the packet of a frame, found, taken from the free ones, or evicted.
use jack_example_tools.Base.{
  ℕ, ◌+◌, ◌^◌, ◌≤◌, ◌<◌, ◌≡◌, ◌≢◌, ◌⊎◌, inl, inr, refl, ap, sym, ◌∙◌, arith, true, false, none,
  some, List, [], length, set, get_elem?, get_or, Option-cases, some_inj, none-ne-some,
  get_elem?-set_self, get_elem?-set_ne, lt_of_get_elem?, get_elem?-get_or,
}
use jack_example_tools.Machine.{sub_u32}
use jack_example_tools.Netjack.Packet.{CachePacket, cache_packet_reset, cache_packet_set_framecnt}
use jack_example_tools.Netjack.Packet.Valid.{
  IsConfig, IsPacket, cache_packet_reset-IsPacket, cache_packet_set_framecnt-IsPacket,
}
use jack_example_tools.Netjack.Cache.{
  PacketCache, find_index, holds_frame, is_free, packet_cache_get_free_packet,
  packet_cache_get_oldest_packet, packet_cache_get_packet, oldest_from,
}
use jack_example_tools.Netjack.Cache.Find.{
  find_index-some, find_index-none, Oldest, Below, kept, moved, oldest_from-Oldest,
}
use jack_example_tools.Netjack.Cache.Valid.{Each, IsCache, update_packet-some, take_up}

abbrev blank : CachePacket
blank = record {
  valid = false;
  num_fragments = 0;
  packet_size = 0;
  mtu = 0;
  recv_timestamp = 0;
  framecnt = 0;
  fragment_array = [];
  packet_buf = [];
}

-- The three ways to a packet for frame `f`.
pub data Located (max_frames f : ℕ) (c : PacketCache) (r : PacketCache × ℕ) : Type 0 where
  present :
      (i : ℕ) (p : CachePacket)
      → get_elem? c.packets i ≡ some p
      → p.valid ≡ true
      → p.framecnt ≡ f
      → r ≡ (c, i)
      → Located max_frames f c r
  replaced :
      (i : ℕ) (p new : CachePacket)
      → get_elem? c.packets i ≡ some p
      → find_index (holds_frame f) c.packets ≡ none
      → new ≡ cache_packet_set_framecnt p f
        ⊎ new ≡ cache_packet_set_framecnt (cache_packet_reset p) f
      → (p.valid ≡ true
          → (i ≡ oldest_from 0 max_frames 0 c.packets) × (find_index is_free c.packets ≡ none))
      → r ≡ (record c { packets = set c.packets i new }, i)
      → Located max_frames f c r

first_of_nonempty :
    (ps : List CachePacket) → 0 < length ps → get_elem? ps 0 ≡ some (get_or ps 0 blank)
first_of_nonempty ps h = get_elem?-get_or ps 0 blank h

-- What `packet_cache_get_packet` returns in each of the three cases.
module _ (max_frames f : ℕ) (c : PacketCache) {i : ℕ} where
  get_packet_present :
      find_index (holds_frame f) c.packets ≡ some i
      → packet_cache_get_packet max_frames c f ≡ (c, i)
  unfolding packet_cache_get_packet
  get_packet_present e = rw (e, packet_cache_get_packet)

  module _ {p : CachePacket} (absent : find_index (holds_frame f) c.packets ≡ none) where
    get_packet_free :
        find_index is_free c.packets ≡ some i
        → get_elem? c.packets i ≡ some p
        → packet_cache_get_packet max_frames c f
          ≡ (record c { packets = set c.packets i (cache_packet_set_framecnt p f) }, i)
    unfolding packet_cache_get_packet packet_cache_get_free_packet
    get_packet_free e d =
        rw (absent, packet_cache_get_packet)
          (rw (e, packet_cache_get_packet)
            (ap (λ r. (r, i)) (update_packet-some i (λ q. cache_packet_set_framecnt q f) c d)))

    get_packet_full :
        find_index is_free c.packets ≡ none
        → oldest_from 0 max_frames 0 c.packets ≡ i
        → get_elem? c.packets i ≡ some p
        → packet_cache_get_packet max_frames c f ≡ (
          record c {
            packets = set c.packets i (cache_packet_set_framecnt (cache_packet_reset p) f);
          },
          i,
        )
    unfolding packet_cache_get_packet packet_cache_get_free_packet packet_cache_get_oldest_packet
    get_packet_full e o d =
        rw (absent, packet_cache_get_packet)
          (rw (e, packet_cache_get_packet)
            (rw o (
              ap (λ r. (r, i))
                (update_packet-some i (λ q. cache_packet_set_framecnt (cache_packet_reset q) f) c
                  d))))

module _ (max_frames f : ℕ) (c : PacketCache) (nonempty : 0 < length c.packets) where
  oldest_in_range :
      (p : CachePacket) × (get_elem? c.packets (oldest_from 0 max_frames 0 c.packets) ≡ some p)
  oldest_in_range = at (oldest_from-Oldest 0 max_frames 0 c.packets)
    where
      at :
          {found : ℕ}
          → Oldest 0 max_frames 0 c.packets found
          → (p : CachePacket) × (get_elem? c.packets found ≡ some p)
      at (kept e b) = elim (Option-cases (get_elem? c.packets 0)) [
        | inl out ↦ absurd (none-ne-some (sym out ∙ first_of_nonempty c.packets nonempty))
        | inr (p, q) ↦ (p, rw e q)
      ]
      at (moved k p e q less b) = (p, rw e (let z : 0 + k ≡ k = omega arith in rw z q))

  pub get_packet-Located : Located max_frames f c (packet_cache_get_packet max_frames c f)
  get_packet-Located = elim (Option-cases (find_index (holds_frame f) c.packets)) [
    | inr (i, found) ↦
        let (p, e, h) = find_index-some (holds_frame f) c.packets found in
        present i p e (ground arith) (ground arith) (get_packet_present max_frames f c found)
    | inl absent ↦ elim (Option-cases (find_index is_free c.packets)) [
      | inr (i, free) ↦
          let (p, e, h) = find_index-some is_free c.packets free in
          replaced i p (cache_packet_set_framecnt p f) e absent (inl refl) (λ v. ground arith)
            (get_packet_free max_frames f c absent free e)
      | inl full ↦
          let (p, e) = oldest_in_range in
          replaced (oldest_from 0 max_frames 0 c.packets) p
            (cache_packet_set_framecnt (cache_packet_reset p) f) e absent (inr refl)
            (λ v. (refl, full)) (get_packet_full max_frames f c absent full refl e)
    ]
  ]

-- A packet that a fresh frame makes of `p`.
module _ (pkt_size mtu f : ℕ) (cfg : IsConfig pkt_size mtu) (p new : CachePacket)
    (made : new ≡ cache_packet_set_framecnt p f
      ⊎ new ≡ cache_packet_set_framecnt (cache_packet_reset p) f) where
  made-IsPacket : IsPacket pkt_size mtu p → IsPacket pkt_size mtu new
  made-IsPacket v = elim made [
    | inl e ↦ rw e (cache_packet_set_framecnt-IsPacket pkt_size mtu cfg v f)
    | inr e ↦ rw e (
        cache_packet_set_framecnt-IsPacket pkt_size mtu cfg
          (cache_packet_reset-IsPacket pkt_size mtu cfg v) f)
  ]

  made_in_use : (new.valid ≡ true) × (new.framecnt ≡ f)
  unfolding cache_packet_set_framecnt
  made_in_use = ground arith

-- Frame `a` comes after frame `b`, counted around 2 ^ 32.
abbrev pub Newer : ℕ → ℕ → Type 0
Newer a b = (0 < sub_u32 a b) × (sub_u32 a b < 2 ^ 31)

-- What a client may rely on: the packet at the index is in use for frame `f`, the others are as
-- they were, and the cache is well formed.
pub record Ready (pkt_size mtu f : ℕ) (c : PacketCache) (r : PacketCache × ℕ) : Type 0 where
  pub cache : IsCache pkt_size mtu r.0
  pub packet : CachePacket
  pub at : get_elem? r.0.packets r.1 ≡ some packet
  pub in_use : packet.valid ≡ true
  pub frame : packet.framecnt ≡ f
  pub others : (j : ℕ) → r.1 ≢ j → get_elem? r.0.packets j ≡ get_elem? c.packets j

module _ (pkt_size mtu max_frames f : ℕ) (cfg : IsConfig pkt_size mtu) {c : PacketCache}
    (v : IsCache pkt_size mtu c) where
  Located-Ready : {r : PacketCache × ℕ} → Located max_frames f c r → Ready pkt_size mtu f c r
  Located-Ready (present i p e live frame q) =
      rw q (record {
        cache = v;
        packet = p;
        at = e;
        in_use = live;
        frame = frame;
        others = λ j n. refl;
      })
  Located-Ready (replaced i p new e absent made evicts q) =
      let (live, frame) = made_in_use pkt_size mtu f cfg p new made in
      let ok = made-IsPacket pkt_size mtu f cfg p new made (v.packets i p e) in
      rw q (record {
        cache = take_up pkt_size mtu cfg v i f p new e absent ok frame;
        packet = new;
        at = get_elem?-set_self c.packets i new (lt_of_get_elem? c.packets i e);
        in_use = live;
        frame = frame;
        others = λ j n. get_elem?-set_ne c.packets new n;
      })

  -- On a well-formed cache `packet_cache_get_packet` gives a packet in use for the frame asked
  -- for, leaves every other packet as it was, and keeps the cache well formed.
  pub get_packet-Ready : Ready pkt_size mtu f c (packet_cache_get_packet max_frames c f)
  get_packet-Ready = Located-Ready (get_packet-Located max_frames f c v.some_packet)

  -- On a well-formed cache with no frame above `max_frames`, packet_cache_get_packet reuses a packet in
  -- use for another frame only if every packet of the cache is in use, and then one whose frame is
  -- the least of all as a number.
  pub get_packet_evicts :
      (old : CachePacket)
      → Each (λ i p. p.framecnt ≤ max_frames) c.packets
      → get_elem? c.packets (packet_cache_get_packet max_frames c f).1 ≡ some old
      → old.valid ≡ true
      → old.framecnt ≢ f
      → Each (λ i p. (p.valid ≡ true) × (old.framecnt ≤ p.framecnt)) c.packets
  get_packet_evicts old small at live other =
      go (get_packet-Located max_frames f c v.some_packet) at
    where
      go :
          {r : PacketCache × ℕ}
          → Located max_frames f c r
          → get_elem? c.packets r.1 ≡ some old
          → Each (λ i p. (p.valid ≡ true) × (old.framecnt ≤ p.framecnt)) c.packets
      go (present i p e u frame q) d j r d' =
          let same : get_elem? c.packets i ≡ some old = rw q at d in
          absurd (other (ap (λ r. r.framecnt) (some_inj (sym same ∙ e)) ∙ frame))
      go (replaced i p new e absent made evicts q) d j r d' =
          let same : get_elem? c.packets i ≡ some old = rw q at d in
          let p_old : old ≡ p = some_inj (sym same ∙ e) in
          let (oldest, full) = evicts (rw p_old at live) in
          let r_live : r.valid ≡ true =
            let h = find_index-none is_free c.packets j full d' in ground arith in
          (
            r_live,
            least (oldest_from-Oldest 0 max_frames 0 c.packets) (rw oldest at same) j r d' r_live,
          )
        where
          least :
              {found : ℕ}
              → Oldest 0 max_frames 0 c.packets found
              → get_elem? c.packets found ≡ some old
              → Below old.framecnt c.packets
          least (kept z b) o k t dk live' = omega (arith, small 0 old (rw z at o), b k t dk live')
          least (moved k x z g less b) o l t dl live' =
              let zk : 0 + k ≡ k = omega arith in
              let x_old : old ≡ x = some_inj (sym (rw (z, zk) at o) ∙ g) in
              rw x_old (b l t dl live')

  -- On a well-formed cache with no frame above `max_frames`: where the count of frames has wrapped
  -- around between two packets of the cache, the frame of one being more than 2 ^ 31 below the 32-bit
  -- frame of the other, a packet in use that packet_cache_get_packet reuses for another frame is newer,
  -- counted around 2 ^ 32, than the one from before the wrap, which is in use.
  pub get_packet_evicts-Newer :
      (old before : CachePacket) (i j : ℕ) (wrapped : CachePacket)
      → Each (λ i p. p.framecnt ≤ max_frames) c.packets
      → get_elem? c.packets (packet_cache_get_packet max_frames c f).1 ≡ some old
      → old.valid ≡ true
      → old.framecnt ≢ f
      → get_elem? c.packets i ≡ some before
      → get_elem? c.packets j ≡ some wrapped
      → before.framecnt < 2 ^ 32
      → wrapped.framecnt + 2 ^ 31 < before.framecnt
      → (before.valid ≡ true) × Newer old.framecnt before.framecnt
  get_packet_evicts-Newer old before i j wrapped small at live other e d high around =
      let all = get_packet_evicts old small at live other in
      ((all i before e).0, omega (arith, (all j wrapped d).1))
