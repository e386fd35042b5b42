-- ===== src/Netjack/Packet/Fragment.antt =====
-- `cache_packet_add_fragment` branch by branch.
use jack_example_tools.Base.{
  ℕ, ◌+◌, ◌-◌, ◌*◌, ◌^◌, ◌≤◌, ◌<◌, ◌≡◌, ◌≢◌, inl, inr, List, none, some, arith, if◌then◌else◌, ltb,
  leb, ◌&&◌, lt→ltb, leb→le, Bool-cases, length, set, drop, take, length-drop,
}
use jack_example_tools.Machine.{sub_size}
use jack_example_tools.Bytes.{splice, read32, store}
use jack_example_tools.Bytes.Laws.{memcpy_lem, memcpy_fault}
use jack_example_tools.Netjack.Packet.{
  CachePacket, header_size, framecnt_at, fragment_nr_at, put_fragment, fragment_offset,
  fragment_fits, cache_packet_add_fragment,
}
use jack_example_tools.Netjack.Packet.Valid.{
  IsConfig, IsPacket, fragment_count, fragment_count_pos, fragment_offset_lem, fragment_fits_lem,
}

-- The packet after the bytes of `src` were laid over its buffer as fragment `k`.
abbrev pub with_fragment : CachePacket → ℕ → ℕ → List ℕ → CachePacket
with_fragment pack k off src = record pack {
  fragment_array = set pack.fragment_array k 1;
  packet_buf = splice pack.packet_buf off src;
}

pub put_fragment_lem :
    (pack : CachePacket) (k off : ℕ) (src : List ℕ) (n : ℕ)
    → off + n ≤ length pack.packet_buf
    → n ≤ length src
    → k < length pack.fragment_array
    → put_fragment pack k off src n ≡ some (with_fragment pack k off (take n src))
unfolding put_fragment store
put_fragment_lem pack k off src n h i j =
    rw (memcpy_lem pack.packet_buf off src n h i) (ground arith)

module _ (pack : CachePacket) (rx : List ℕ) (rcv_len : ℕ) where
  -- A datagram of another frame is refused and changes nothing.
  pub add_fragment_other :
      (k f : ℕ)
      → read32 rx fragment_nr_at ≡ some k
      → read32 rx framecnt_at ≡ some f
      → f ≢ pack.framecnt
      → cache_packet_add_fragment pack rx rcv_len ≡ some pack
  unfolding cache_packet_add_fragment
  add_fragment_other k f e d ne = rw (e, d) (ground arith)

  pub add_fragment_first :
      read32 rx fragment_nr_at ≡ some 0
      → read32 rx framecnt_at ≡ some pack.framecnt
      → cache_packet_add_fragment pack rx rcv_len ≡ put_fragment pack 0 0 rx rcv_len
  unfolding cache_packet_add_fragment
  add_fragment_first e d = rw (e, d) (ground arith)

  add_fragment_step :
      (k : ℕ)
      → read32 rx fragment_nr_at ≡ some k
      → read32 rx framecnt_at ≡ some pack.framecnt
      → k ≢ 0
      → cache_packet_add_fragment pack rx rcv_len ≡ (
          if ltb k pack.num_fragments && fragment_fits pack k rcv_len
          then put_fragment pack k
              (header_size + fragment_offset pack k)
              (drop header_size rx)
              (sub_size rcv_len header_size)
          else some pack)
  unfolding cache_packet_add_fragment
  add_fragment_step k e d ne = rw (e, d) (ground arith)

module _ {pkt_size mtu : ℕ} (c : IsConfig pkt_size mtu) {pack : CachePacket}
    (v : IsPacket pkt_size mtu pack) (rx : List ℕ) (rcv_len : ℕ) (low : header_size ≤ rcv_len)
    (received : rcv_len ≤ length rx) (high : rcv_len < 2 ^ 31)
    (same_frame : read32 rx framecnt_at ≡ some pack.framecnt) where
  pub add_fragment_zero :
      read32 rx fragment_nr_at ≡ some 0
      → rcv_len ≤ pkt_size
      → cache_packet_add_fragment pack rx rcv_len ≡ some (with_fragment pack 0 0 (take rcv_len rx))
  add_fragment_zero e fits = rw (add_fragment_first pack rx rcv_len e same_frame) (
      put_fragment_lem pack 0 0 rx rcv_len (omega (arith, v.buf)) received
        (omega (arith, v.flags, fragment_count_pos pkt_size mtu c)))

  -- The missing bound: a first fragment longer than the packet is written past the buffer's end.
  pub add_fragment_overflow :
      read32 rx fragment_nr_at ≡ some 0
      → pkt_size < rcv_len
      → cache_packet_add_fragment pack rx rcv_len ≡ none
  unfolding put_fragment
  add_fragment_overflow e long = rw (
    add_fragment_first pack rx rcv_len e same_frame,
    memcpy_fault pack.packet_buf 0 rx rcv_len (omega (arith, v.buf)),
  )

  pub add_fragment_later :
      (k : ℕ)
      → read32 rx fragment_nr_at ≡ some k
      → k ≢ 0
      → k < fragment_count pkt_size mtu
      → cache_packet_add_fragment pack rx rcv_len ≡ (
          if leb (k * (mtu - header_size) + rcv_len) pkt_size
          then some (
              with_fragment pack k
                (header_size + k * (mtu - header_size))
                (take (rcv_len - header_size) (drop header_size rx)))
          else some pack)
  add_fragment_later k e ne h =
      let size : sub_size rcv_len header_size ≡ rcv_len - header_size = omega arith in
      rw
        (
          add_fragment_step pack rx rcv_len k e same_frame ne,
          fragment_fits_lem pkt_size mtu c v k rcv_len h ne low high,
          fragment_offset_lem pkt_size mtu c v k h ne,
          size,
          lt→ltb k pack.num_fragments (omega (arith, v.count_eq)),
        )
        (elim (Bool-cases (leb (k * (mtu - header_size) + rcv_len) pkt_size)) [
          | inl fits ↦ rw fits (
              put_fragment_lem pack k (header_size + k * (mtu - header_size)) (drop header_size rx)
                (rcv_len - header_size) (omega (arith, v.buf, leb→le _ _ fits))
                (omega (arith, length-drop header_size rx)) (omega (arith, v.flags)))
          | inr long ↦ rw long
        ])

  pub add_fragment_beyond :
      (k : ℕ)
      → read32 rx fragment_nr_at ≡ some k
      → fragment_count pkt_size mtu ≤ k
      → cache_packet_add_fragment pack rx rcv_len ≡ some pack
  add_fragment_beyond k e h =
      rw
        (add_fragment_step pack rx rcv_len k e same_frame
          (omega (arith, fragment_count_pos pkt_size mtu c)))
        (ground (arith, v.count_eq))
