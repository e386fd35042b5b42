-- ===== src/Netjack/Packet/Valid.antt =====
-- The invariant of one cached packet, and that every operation on it keeps the invariant.
use jack_example_tools.Base.{
  ℕ, zero, suc, ◌+◌, ◌-◌, ◌*◌, ◌/◌, ◌^◌, ◌≤◌, ◌<◌, ◌≡◌, ◌≢◌, refl, ap, List, [], ◌∷◌, arith, ◌==◌,
  if◌then◌else◌, leb, inl, inr, Bool-cases, length,
}
use native.Mathlib.Nat.{mod-eq_of_lt}
use jack_example_tools.Machine.{rounds}
use jack_example_tools.Netjack.Packet.{
  CachePacket, header_size, payload_size, clear_first, cache_packet_reset,
  cache_packet_set_framecnt, fragment_offset, fragment_fits,
}

-- The sizes for which the arithmetic of the cache is meant: more than a header to a datagram, at
-- least a header to a packet, and both an `int`.
pub record IsConfig (pkt_size mtu : ℕ) : Type 0 where
  pub mtu_min : header_size < mtu
  pub mtu_max : mtu < 2 ^ 31
  pub size_min : header_size ≤ pkt_size
  pub size_max : pkt_size < 2 ^ 31

-- How many datagrams a packet takes.
abbrev pub fragment_count : ℕ → ℕ → ℕ
fragment_count pkt_size mtu =
    if pkt_size == header_size then 1 else (pkt_size - 57) / (mtu - header_size) + 1

pub record IsPacket (pkt_size mtu : ℕ) (pack : CachePacket) : Type 0 where
  pub size_eq : pack.packet_size ≡ pkt_size
  pub mtu_eq : pack.mtu ≡ mtu
  pub count_eq : pack.num_fragments ≡ fragment_count pkt_size mtu
  pub flags : length pack.fragment_array ≡ fragment_count pkt_size mtu
  pub buf : length pack.packet_buf ≡ pkt_size

pub length-clear_first : (n : ℕ) (xs : List ℕ) → length (clear_first n xs) ≡ length xs
unfolding clear_first
length-clear_first zero xs = refl
length-clear_first (suc n) [] = refl
length-clear_first (suc n) (x ∷ xs) = ap suc (length-clear_first n xs)

pub payload_size_lem :
    (mtu : ℕ) → header_size < mtu → mtu < 2 ^ 31 → payload_size mtu ≡ mtu - header_size
unfolding payload_size
payload_size_lem mtu h k = ground arith

-- What a block number says of a division.
mul-le_of_le-div : (n p k : ℕ) → 0 < p → k ≤ n / p → k * p ≤ n
mul-le_of_le-div n p k h q = grind arith

pub div_mono : (n m p : ℕ) → 0 < p → n ≤ m → n / p ≤ m / p
div_mono n m p h q = grind arith

pub div-le : (n p : ℕ) → n / p ≤ n
div-le n zero = omega arith
div-le n (suc p) = grind arith

module _ (pkt_size mtu : ℕ) (c : IsConfig pkt_size mtu) where
  -- A later fragment's block begins inside the packet.
  pub block_start :
      (k : ℕ)
      → k < fragment_count pkt_size mtu
      → k ≢ 0
      → header_size + k * (mtu - header_size) < pkt_size
  block_start k h ne = elim (Bool-cases (pkt_size == header_size)) [
    | inl e ↦ absurd (ground arith)
    | inr n ↦ ground (arith, mul-le_of_le-div (pkt_size - 57) (mtu - header_size) k)
  ]

  pub fragment_count_pos : 0 < fragment_count pkt_size mtu
  fragment_count_pos = ground arith

  pub fragment_count_max : fragment_count pkt_size mtu < 2 ^ 31
  fragment_count_max = ground (arith, div-le (pkt_size - 57) (mtu - header_size))

  module _ {pack : CachePacket} (v : IsPacket pkt_size mtu pack) where
    pub fragment_offset_lem :
        (k : ℕ)
        → k < fragment_count pkt_size mtu
        → k ≢ 0
        → fragment_offset pack k ≡ k * (mtu - header_size)
    unfolding fragment_offset
    fragment_offset_lem k h ne =
        rw (v.mtu_eq, payload_size_lem mtu c.mtu_min c.mtu_max)
          (mod-eq_of_lt (omega (arith, block_start k h ne, c.size_max)))

    pub fragment_fits_lem :
        (k rcv_len : ℕ)
        → k < fragment_count pkt_size mtu
        → k ≢ 0
        → header_size ≤ rcv_len
        → rcv_len < 2 ^ 31
        → fragment_fits pack k rcv_len ≡ leb (k * (mtu - header_size) + rcv_len) pkt_size
    unfolding fragment_fits
    fragment_fits_lem k rcv_len h ne low high =
        rw (fragment_offset_lem k h ne, v.size_eq) (ground (arith, block_start k h ne))

    pub cache_packet_reset-IsPacket : IsPacket pkt_size mtu (cache_packet_reset pack)
    unfolding cache_packet_reset
    cache_packet_reset-IsPacket =
        ground (arith, length-clear_first (rounds pack.num_fragments) pack.fragment_array)

    pub cache_packet_set_framecnt-IsPacket :
        (framecnt : ℕ) → IsPacket pkt_size mtu (cache_packet_set_framecnt pack framecnt)
    unfolding cache_packet_set_framecnt
    cache_packet_set_framecnt-IsPacket framecnt =
        ground (arith, length-clear_first (rounds pack.num_fragments) pack.fragment_array)
