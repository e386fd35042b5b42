-- ===== src/Netjack/Packet/Total.antt =====
-- `cache_packet_add_fragment` never writes outside its buffers on datagrams of admissible length.
use jack_example_tools.Base.{
  ℕ, zero, suc, ◌+◌, ◌-◌, ◌*◌, ◌^◌, ◌≤◌, ◌<◌, ◌≡◌, inl, inr, refl, ap, ◌∙◌, arith, ◌==◌, ==_iff,
  some, List, ltb, ltb→lt, ltb→le, leb, leb→le, length, take, drop, get_or, get_elem?-get_or,
  length-set, length-take, Bool-cases,
}
use jack_example_tools.Bytes.{read32}
use jack_example_tools.Bytes.Laws.{length-splice}
use jack_example_tools.Netjack.Packet.{
  CachePacket, header_size, framecnt_at, fragment_nr_at, cache_packet_add_fragment,
}
use jack_example_tools.Netjack.Packet.Valid.{IsConfig, IsPacket, fragment_count}
use jack_example_tools.Netjack.Packet.Fragment.{
  with_fragment, add_fragment_other, add_fragment_zero, add_fragment_later, add_fragment_beyond,
}

pub read32-some : (xs : List ℕ) (off : ℕ) → off + 4 ≤ length xs → (w : ℕ) × (read32 xs off ≡ some w)
unfolding read32
read32-some xs off h = (
  get_or xs off 0 * 2 ^ 24
      + get_or xs (off + 1) 0 * 2 ^ 16
      + get_or xs (off + 2) 0 * 2 ^ 8
      + get_or xs (off + 3) 0,
  rw (
    get_elem?-get_or xs off 0 (omega arith),
    get_elem?-get_or xs (off + 1) 0 (omega arith),
    get_elem?-get_or xs (off + 2) 0 (omega arith),
    get_elem?-get_or xs (off + 3) 0 (omega arith),
  ),
)

-- A packet after a datagram: still well formed, and still in use for its frame.
pub record Kept (pkt_size mtu : ℕ) (pack pack' : CachePacket) : Type 0 where
  pub packet : IsPacket pkt_size mtu pack'
  pub valid_eq : pack'.valid ≡ pack.valid
  pub frame_eq : pack'.framecnt ≡ pack.framecnt

module _ (pkt_size mtu : ℕ) (c : IsConfig pkt_size mtu) {pack : CachePacket}
    (v : IsPacket pkt_size mtu pack) where
  same-Kept : Kept pkt_size mtu pack pack
  same-Kept = record { packet = v; valid_eq = refl; frame_eq = refl }

  with_fragment-Kept :
      (k off : ℕ) (src : List ℕ)
      → off + length src ≤ pkt_size
      → Kept pkt_size mtu pack (with_fragment pack k off src)
  with_fragment-Kept k off src fits = record {
    packet = record {
      size_eq = v.size_eq;
      mtu_eq = v.mtu_eq;
      count_eq = v.count_eq;
      flags = length-set pack.fragment_array k 1 ∙ v.flags;
      buf = length-splice pack.packet_buf off src (omega (arith, v.buf)) ∙ v.buf;
    };
    valid_eq = refl;
    frame_eq = refl;
  }

  module _ (rx : List ℕ) (n : ℕ) (low : header_size ≤ n) (received : n ≤ length rx)
      (small : n ≤ pkt_size) where
    high : n < 2 ^ 31
    high = omega (arith, c.size_max)

    same_frame_Kept :
        (k : ℕ)
        → read32 rx fragment_nr_at ≡ some k
        → read32 rx framecnt_at ≡ some pack.framecnt
        → (pack' : CachePacket) × (cache_packet_add_fragment pack rx n ≡ some pack')
          × Kept pkt_size mtu pack pack'
    same_frame_Kept zero e d = (
      with_fragment pack 0 0 (take n rx),
      add_fragment_zero c v rx n low received high d e small,
      with_fragment-Kept 0 0 (take n rx) (omega (arith, length-take n rx)),
    )
    same_frame_Kept (suc k) e d = elim (Bool-cases (ltb (suc k) (fragment_count pkt_size mtu))) [
      | inr beyond ↦ (
        pack,
        add_fragment_beyond c v rx n low received high d (suc k) e (ltb→le _ _ beyond),
        same-Kept,
      )
      | inl inside ↦
          let p = mtu - header_size in
          let src = take (n - header_size) (drop header_size rx) in
          let step =
            add_fragment_later c v rx n low received high d (suc k) e (λ z. absurd (omega arith))
              (ltb→lt _ _ inside) in
          elim (Bool-cases (leb (suc k * p + n) pkt_size)) [
            | inr long ↦ (pack, step ∙ rw long, same-Kept)
            | inl fits ↦ (
              with_fragment pack (suc k) (header_size + suc k * p) src,
              step ∙ rw fits,
              with_fragment-Kept (suc k) (header_size + suc k * p) src (
                  omega
                    (arith, leb→le _ _ fits, length-take (n - header_size) (drop header_size rx))),
            )
          ]
    ]

    -- A datagram that holds at least a header, and no more bytes than the packet, never makes
    -- `cache_packet_add_fragment` access memory outside its buffers: it returns, the packet stays
    -- well formed, and its state of use and its frame stay the same.
    pub add_fragment-Kept :
        (pack' : CachePacket) × (cache_packet_add_fragment pack rx n ≡ some pack')
        × Kept pkt_size mtu pack pack'
    add_fragment-Kept =
        let (k, e) = read32-some rx fragment_nr_at (omega arith) in
        let (f, d) = read32-some rx framecnt_at (omega arith) in
        elim (Bool-cases (f == pack.framecnt)) [
          | inl same ↦ same_frame_Kept k e (d ∙ ap some ((==_iff f pack.framecnt).0 same))
          | inr ne ↦ (pack, add_fragment_other pack rx n k f e d (ground arith), same-Kept)
        ]
