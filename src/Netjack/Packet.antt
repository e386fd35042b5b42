-- ===== src/Netjack/Packet.antt =====
-- `cache_packet` of common/netjack_packet.h, and the functions on one packet of
-- common/netjack_packet.c: reset, set_framecnt, add_fragment, is_complete.
pub mod Valid
pub mod Fragment
pub mod Total
pub mod Prefix
use jack_example_tools.Base.{
  ℕ, zero, suc, ◌+◌, Bool, true, false, not, Option, none, some, List, [], ◌∷◌, ltb, leb, ◌==◌,
  if◌then◌else◌, ◌>>=◌, length, set, drop,
}
use jack_example_tools.Machine.{size_of_int, int_of_size, rounds, sub_size, add_u32, mul_u32}
use jack_example_tools.Bytes.{memcpy, read32, store}

-- `struct _cache_packet`. The two arrays are the blocks behind the pointers; `num_fragments`,
-- `packet_size` and `mtu` are bit patterns of `int`.
pub record CachePacket : Type 0 where
  pub valid : Bool
  pub num_fragments : ℕ
  pub packet_size : ℕ
  pub mtu : ℕ
  pub recv_timestamp : ℕ
  pub framecnt : ℕ
  pub fragment_array : List ℕ
  pub packet_buf : List ℕ

-- `sizeof (jacknet_packet_header)`: fourteen 32-bit words; the tenth is `framecnt` and the last
-- `fragment_nr`.
abbrev pub header_size : ℕ
header_size = 56

abbrev pub framecnt_at : ℕ
framecnt_at = 36

abbrev pub fragment_nr_at : ℕ
fragment_nr_at = 52

-- `int fragment_payload_size = mtu - sizeof (jacknet_packet_header)`
unfoldable pub payload_size : ℕ → ℕ
payload_size mtu = int_of_size (sub_size (size_of_int mtu) header_size)

-- `for (i = 0; i < n; i++) array[i] = 0`, as far as the array goes; that of a well-formed packet holds
-- `n` flags.
unfoldable pub clear_first : ℕ → List ℕ → List ℕ
clear_first zero xs = xs
clear_first (suc n) [] = []
clear_first (suc n) (x ∷ xs) = 0 ∷ clear_first n xs

unfoldable pub cache_packet_reset : CachePacket → CachePacket
unfolding clear_first
cache_packet_reset pack = record pack {
  valid = false;
  fragment_array = clear_first (rounds pack.num_fragments) pack.fragment_array;
}

unfoldable pub cache_packet_set_framecnt : CachePacket → ℕ → CachePacket
unfolding clear_first
cache_packet_set_framecnt pack framecnt = record pack {
  framecnt = framecnt;
  fragment_array = clear_first (rounds pack.num_fragments) pack.fragment_array;
  valid = true;
}

-- The `memcpy` of a received range into `packet_buf`, and the flag of its fragment.
unfoldable pub put_fragment : CachePacket → ℕ → ℕ → List ℕ → ℕ → Option CachePacket
put_fragment pack fragment_nr off src n = do
  buf ← memcpy pack.packet_buf off src n
  flags ← store pack.fragment_array fragment_nr 1
  some (record pack { fragment_array = flags; packet_buf = buf })

-- `fragment_nr * fragment_payload_size`, in `uint32_t`
unfoldable pub fragment_offset : CachePacket → ℕ → ℕ
unfolding payload_size
fragment_offset pack fragment_nr = mul_u32 fragment_nr (payload_size pack.mtu)

-- The bound of a later fragment: the comparison is in `size_t`.
unfoldable pub fragment_fits : CachePacket → ℕ → ℕ → Bool
fragment_fits pack fragment_nr rcv_len =
    leb (sub_size (add_u32 (fragment_offset pack fragment_nr) rcv_len) header_size)
      (sub_size (size_of_int pack.packet_size) header_size)

-- `rx` is the receive buffer, of which `rcv_len` bytes were received. `none` is an access outside
-- a buffer; the three refusals leave the packet as it is.
unfoldable pub cache_packet_add_fragment : CachePacket → List ℕ → ℕ → Option CachePacket
cache_packet_add_fragment pack rx rcv_len = do
  fragment_nr ← read32 rx fragment_nr_at
  framecnt ← read32 rx framecnt_at
  if not (framecnt == pack.framecnt)
      then some pack
      else if fragment_nr == 0
      then put_fragment pack 0 0 rx rcv_len
      else if ltb fragment_nr pack.num_fragments
      then (if fragment_fits pack fragment_nr rcv_len
          then put_fragment pack fragment_nr (header_size + fragment_offset pack fragment_nr)
              (drop header_size rx) (sub_size rcv_len header_size)
          else some pack)
      else some pack

-- The first `n` flags are all set. (A flag outside the array counts as not set.)
unfoldable pub all_set : ℕ → List ℕ → Bool
all_set zero xs = true
all_set (suc n) [] = false
all_set (suc n) (x ∷ xs) = if x == 0 then false else all_set n xs

unfoldable pub cache_packet_is_complete : CachePacket → Bool
cache_packet_is_complete pack = all_set (rounds pack.num_fragments) pack.fragment_array
