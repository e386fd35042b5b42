-- ===== src/Netjack/Transfer/Store.antt =====
-- One received fragment: what the packet holds of the image that is being transferred.
use jack_example_tools.Base.{
  ℕ, zero, suc, ◌+◌, ◌-◌, ◌≤◌, ◌<◌, ◌≡◌, ◌≢◌, inl, inr, refl, ap, ◌∙◌, arith, ◌==◌, ==_iff,
  if◌then◌else◌, ltb, ltb→lt, ltb→le, Bool-cases, true, List, [], ◌∷◌, some, length, set, get_elem?,
  length-set, get_elem?-set_self, get_elem?-set_ne,
}
use jack_example_tools.Machine.{rounds}
use jack_example_tools.Bytes.{splice}
use jack_example_tools.Bytes.Laws.{
  length-splice, get_elem?-splice_before, get_elem?-splice_in, get_elem?-splice_after,
}
use jack_example_tools.Netjack.Packet.{CachePacket, clear_first, cache_packet_set_framecnt}
use jack_example_tools.Netjack.Packet.Valid.{
  IsConfig, IsPacket, fragment_count, fragment_count_max, cache_packet_set_framecnt-IsPacket,
}
use jack_example_tools.Netjack.Packet.Fragment.{with_fragment}
use jack_example_tools.Netjack.Transfer.Blocks.{block_from, block_to, has, blocks_apart}

-- After the fragments `ks`: their flags alone are set, and their blocks hold the image.
pub record Partial (pkt_size mtu : ℕ) (image : List ℕ) (f : ℕ) (ks : List ℕ) (pack : CachePacket)
    : Type 0 where
  pub packet : IsPacket pkt_size mtu pack
  pub frame : pack.framecnt ≡ f
  pub flag :
      (k : ℕ)
      → k < fragment_count pkt_size mtu
      → get_elem? pack.fragment_array k ≡ some (if has k ks then 1 else 0)
  pub bytes :
      (k j : ℕ)
      → k < fragment_count pkt_size mtu
      → has k ks ≡ true
      → block_from mtu k ≤ j
      → j < block_to pkt_size mtu k
      → get_elem? pack.packet_buf j ≡ get_elem? image j

clear_first_reads :
    (n : ℕ) (xs : List ℕ) (i : ℕ) → i < n → i < length xs → get_elem? (clear_first n xs) i ≡ some 0
unfolding clear_first
clear_first_reads zero xs i h k = elim h [ ]
clear_first_reads (suc n) [] i h k = elim k [ ]
clear_first_reads (suc n) (x ∷ xs) zero h k = refl
clear_first_reads (suc n) (x ∷ xs) (suc i) h k =
    clear_first_reads n xs i (omega arith) (omega arith)

module _ (pkt_size mtu : ℕ) (c : IsConfig pkt_size mtu) (image : List ℕ) (f : ℕ) where
  -- A packet taken into use holds nothing yet.
  pub set_framecnt-Partial :
      (pack : CachePacket)
      → IsPacket pkt_size mtu pack
      → Partial pkt_size mtu image f [] (cache_packet_set_framecnt pack f)
  unfolding cache_packet_set_framecnt
  set_framecnt-Partial pack v = record {
    packet = cache_packet_set_framecnt-IsPacket pkt_size mtu c v f;
    frame = refl;
    flag = λ k h.
        clear_first_reads (rounds pack.num_fragments) pack.fragment_array k
          (ground (arith, v.count_eq, fragment_count_max pkt_size mtu c)) (omega (arith, v.flags));
    bytes = λ k j h e. cc;
  }

  module _ (ks : List ℕ) {pack : CachePacket} (p : Partial pkt_size mtu image f ks pack) (k : ℕ)
      (inside : k < fragment_count pkt_size mtu) (src : List ℕ)
      (size : block_from mtu k + length src ≡ block_to pkt_size mtu k)
      (reads : (i : ℕ)
        → i < length src
        → get_elem? src i ≡ get_elem? image (block_from mtu k + i)) where
    fits : block_from mtu k + length src ≤ length pack.packet_buf
    fits = omega (arith, p.packet.buf)

    -- Laying block `k` of the image over the buffer extends what it holds by `k`.
    pub with_fragment-Partial :
        Partial pkt_size mtu image f (k ∷ ks) (with_fragment pack k (block_from mtu k) src)
    with_fragment-Partial = record {
      packet = record {
        size_eq = p.packet.size_eq;
        mtu_eq = p.packet.mtu_eq;
        count_eq = p.packet.count_eq;
        flags = length-set pack.fragment_array k 1 ∙ p.packet.flags;
        buf = length-splice pack.packet_buf (block_from mtu k) src fits ∙ p.packet.buf;
      };
      frame = p.frame;
      flag = flag;
      bytes = bytes;
    }
      where
        flag :
            (l : ℕ)
            → l < fragment_count pkt_size mtu
            → get_elem? (set pack.fragment_array k 1) l ≡ some (if has l (k ∷ ks) then 1 else 0)
        flag l h = elim (Bool-cases (k == l)) [
          | inl e ↦ rw e (
              let same : k ≡ l = (==_iff k l).0 e in
              rw (← same)
                (get_elem?-set_self pack.fragment_array k 1 (omega (arith, p.packet.flags))))
          | inr n ↦ rw n (get_elem?-set_ne pack.fragment_array 1 (ground arith) ∙ p.flag l h)
        ]

        new :
            (j : ℕ)
            → block_from mtu k ≤ j
            → j < block_to pkt_size mtu k
            → get_elem? (splice pack.packet_buf (block_from mtu k) src) j ≡ get_elem? image j
        new j a b =
            get_elem?-splice_in pack.packet_buf (block_from mtu k) src fits j a (omega arith)
            ∙ reads (j - block_from mtu k) (omega arith)
            ∙ ap (get_elem? image) (omega arith)

        old :
            (l j : ℕ)
            → k ≢ l
            → block_from mtu l ≤ j
            → j < block_to pkt_size mtu l
            → get_elem? (splice pack.packet_buf (block_from mtu k) src) j
              ≡ get_elem? pack.packet_buf j
        old l j ne a b = elim (Bool-cases (ltb j (block_from mtu k))) [
          | inl before ↦
              get_elem?-splice_before pack.packet_buf (block_from mtu k) src fits j
                (ltb→lt _ _ before)
          | inr later ↦
              get_elem?-splice_after pack.packet_buf (block_from mtu k) src fits j
                (elim (Bool-cases (ltb j (block_to pkt_size mtu k))) [
                  | inl within ↦ absurd (
                      blocks_apart pkt_size mtu c k l j ne (ltb→le _ _ later) (ltb→lt _ _ within) a
                        b)
                  | inr beyond ↦ omega (arith, ltb→le _ _ beyond)
                ])
        ]

        bytes :
            (l j : ℕ)
            → l < fragment_count pkt_size mtu
            → has l (k ∷ ks) ≡ true
            → block_from mtu l ≤ j
            → j < block_to pkt_size mtu l
            → get_elem? (splice pack.packet_buf (block_from mtu k) src) j ≡ get_elem? image j
        bytes l j h e a b = elim (Bool-cases (k == l)) [
          | inl same ↦ new j (rw (← (==_iff k l).0 same) at a) (rw (← (==_iff k l).0 same) at b)
          | inr ne ↦ old l j (ground arith) a b ∙ p.bytes l j h (rw ne at e) a b
        ]
