-- ===== src/Netjack/Cache/Valid.antt =====
-- The invariant of the cache: well-formed packets, and no frame held twice. Look-up, eviction,
-- release and the reset of the master keep it.
use jack_example_tools.Base.{
  ℕ, ◌<◌, ◌≡◌, ◌≢◌, inl, inr, ap, sym, ◌∙◌, arith, true, none, some, List, length, set, get_elem?,
  get_elem?-set_cases, length-set,
}
use jack_example_tools.Netjack.Packet.{CachePacket}
use jack_example_tools.Netjack.Packet.Valid.{IsConfig, IsPacket}
use jack_example_tools.Netjack.Cache.{PacketCache, find_index, holds_frame, update_packet}
use jack_example_tools.Netjack.Cache.Find.{find_index-none}

-- Each packet of the array, by its index.
abbrev pub Each {κ} : (ℕ → CachePacket → Type κ) → List CachePacket → Type κ
Each P ps = (i : ℕ) (p : CachePacket) → get_elem? ps i ≡ some p → P i p

abbrev pub Unique : List CachePacket → Type 0
Unique ps =
    (i j : ℕ) (p q : CachePacket)
    → get_elem? ps i ≡ some p
    → get_elem? ps j ≡ some q
    → p.valid ≡ true
    → q.valid ≡ true
    → p.framecnt ≡ q.framecnt
    → i ≡ j

pub record IsCache (pkt_size mtu : ℕ) (pcache : PacketCache) : Type 0 where
  pub packets : Each (λ i p. IsPacket pkt_size mtu p) pcache.packets
  pub unique : Unique pcache.packets
  pub some_packet : 0 < length pcache.packets
  pub mtu_eq : pcache.mtu ≡ mtu

pub update_packet-some :
    (i : ℕ) (f : CachePacket → CachePacket) (c : PacketCache) {p : CachePacket}
    → get_elem? c.packets i ≡ some p
    → update_packet i f c ≡ record c { packets = set c.packets i (f p) }
unfolding update_packet
update_packet-some i f c e = rw (e, update_packet)

-- One packet replaced: what holds of the others and of the new one holds of all.
pub Each-set {κ} :
    (P : ℕ → CachePacket → Type κ) (ps : List CachePacket) (i : ℕ) (new : CachePacket)
    → Each P ps
    → P i new
    → Each P (set ps i new)
Each-set P ps i new all own j q e = elim (get_elem?-set_cases ps i j new e) [
  | inl (same, eq) ↦ rw (← same, eq) own
  | inr (ne, old) ↦ all j q old
]

-- A replacement that is free, or whose frame no other packet holds, keeps the frames unique.
pub Unique-set :
    (ps : List CachePacket) (i : ℕ) (new : CachePacket)
    → Unique ps
    → (new.valid ≡ true
        → (j : ℕ) (q : CachePacket) → get_elem? ps j ≡ some q
        → q.valid ≡ true
        → new.framecnt ≢ q.framecnt)
    → Unique (set ps i new)
Unique-set ps i new u fresh j k p q e d vp vq same = elim (get_elem?-set_cases ps i j new e) [
  | inl (at, p_new) ↦ elim (get_elem?-set_cases ps i k new d) [
    | inl (at', q_new) ↦ sym at ∙ at'
    | inr (ne, old) ↦
        absurd (fresh (rw p_new at vp) k q old vq (ap (λ r. r.framecnt) (sym p_new) ∙ same))
  ]
  | inr (ne, old) ↦ elim (get_elem?-set_cases ps i k new d) [
    | inl (at, q_new) ↦
        absurd (fresh (rw q_new at vq) j p old vp (ap (λ r. r.framecnt) (sym q_new) ∙ sym same))
    | inr (ne', old') ↦ u j k p q old old' vp vq same
  ]
]

module _ (pkt_size mtu : ℕ) (cfg : IsConfig pkt_size mtu) {c : PacketCache}
    (v : IsCache pkt_size mtu c) where
  -- Taking packet `i` into use for a frame that no packet holds.
  pub take_up :
      (i f : ℕ) (p new : CachePacket)
      → get_elem? c.packets i ≡ some p
      → find_index (holds_frame f) c.packets ≡ none
      → IsPacket pkt_size mtu new
      → new.framecnt ≡ f
      → IsCache pkt_size mtu (record c { packets = set c.packets i new })
  take_up i f p new e absent ok frame = record {
    packets = Each-set (λ i p. IsPacket pkt_size mtu p) c.packets i new v.packets ok;
    unique = Unique-set c.packets i new v.unique λ vn j q d vq same.
        let clash = find_index-none (holds_frame f) c.packets j absent d in absurd (ground arith);
    some_packet = omega (arith, length-set c.packets i new, v.some_packet);
    mtu_eq = v.mtu_eq;
  }
