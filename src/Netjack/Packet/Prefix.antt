-- ===== src/Netjack/Packet/Prefix.antt =====
-- `cache_packet_add_fragment` sees of its buffer only the bytes that were received.
use jack_example_tools.Base.{
  ℕ, zero, suc, ◌+◌, ◌^◌, ◌≤◌, ◌<◌, ◌≡◌, refl, ap, arith, List, [], ◌∷◌, ◌++◌, length, take, drop,
  length-append, length-drop, get_elem?-append_left,
}
use jack_example_tools.Machine.{sub_size}
use jack_example_tools.Bytes.{memcpy, read32}
use jack_example_tools.Bytes.Laws.{read32_congr}
use jack_example_tools.Memops.Loops.Unrolled.{bind_congr}
use jack_example_tools.Netjack.Packet.{
  CachePacket, header_size, framecnt_at, fragment_nr_at, put_fragment, fragment_offset,
  cache_packet_add_fragment,
}

take-append_within : (n : ℕ) (xs ys : List ℕ) → n ≤ length xs → take n (xs ++ ys) ≡ take n xs
take-append_within zero xs ys h = refl
take-append_within (suc n) [] ys h = absurd (omega arith)
take-append_within (suc n) (x ∷ xs) ys h = ap (◌∷◌ x) (take-append_within n xs ys (omega arith))

drop-append_within : (n : ℕ) (xs ys : List ℕ) → n ≤ length xs → drop n (xs ++ ys) ≡ drop n xs ++ ys
drop-append_within zero xs ys h = refl
drop-append_within (suc n) [] ys h = absurd (omega arith)
drop-append_within (suc n) (x ∷ xs) ys h = drop-append_within n xs ys (omega arith)

put_fragment_within :
    (pack : CachePacket) (k off : ℕ) (src rest : List ℕ) (n : ℕ)
    → n ≤ length src
    → put_fragment pack k off (src ++ rest) n ≡ put_fragment pack k off src n
unfolding put_fragment memcpy
put_fragment_within pack k off src rest n h =
    rw (take-append_within n src rest h) (ground (arith, length-append src rest))

-- What lies behind the datagram in the receive buffer does not matter.
pub add_fragment_within :
    (pack : CachePacket) (gram rest : List ℕ)
    → header_size ≤ length gram
    → length gram < 2 ^ 31
    → cache_packet_add_fragment pack (gram ++ rest) (length gram)
      ≡ cache_packet_add_fragment pack gram (length gram)
unfolding cache_packet_add_fragment
add_fragment_within pack gram rest long high =
    rw
      (
        read32_congr (gram ++ rest) gram fragment_nr_at
            (λ i h k. get_elem?-append_left gram rest i (omega arith)),
        read32_congr (gram ++ rest) gram framecnt_at
            (λ i h k. get_elem?-append_left gram rest i (omega arith)),
        drop-append_within header_size gram rest long,
      )
      (bind_congr (read32 gram fragment_nr_at) _ _ (λ k.
        bind_congr (read32 gram framecnt_at) _ _ (λ framecnt. ground (
          arith,
          put_fragment_within pack 0 0 gram rest (length gram) (omega arith),
          put_fragment_within pack k (header_size + fragment_offset pack k) (drop header_size gram)
              rest (sub_size (length gram) header_size)
              (omega (arith, length-drop header_size gram)),
        ))))
