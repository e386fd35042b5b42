-- ===== src/Netjack/Send.antt =====
-- `netjack_sendto` of common/netjack_packet.c: a packet is cut into datagrams of `mtu` bytes.
-- What `sendto` returns is only reported on the error stream, so the model keeps the datagrams.
pub mod Fragments
pub mod Loop
use jack_example_tools.Base.{
  ℕ, zero, suc, ◌+◌, ◌-◌, ◌^◌, Bool, true, false, Option, none, some, List, [], ◌∷◌, ltb, leb,
  if◌then◌else◌, ◌>>=◌, length, take, drop,
}
use jack_example_tools.Machine.{size_of_int}
use jack_example_tools.Bytes.{splice, memcpy, net32}
use jack_example_tools.Netjack.Packet.{header_size, fragment_nr_at, payload_size}

-- `pkthdr->fragment_nr = htonl (w)`
unfoldable pub put_fragment_nr : List ℕ → ℕ → Option (List ℕ)
put_fragment_nr xs w = memcpy xs fragment_nr_at (net32 w) 4

-- `packet_bufX < packet_buf + pkt_size - fragment_payload_size`, `pos` being the offset of
-- `packet_bufX` in `packet_buf`, and the payload size an `int`.
unfoldable pub before_last : ℕ → ℕ → ℕ → Bool
before_last pos pkt_size payload =
    if ltb payload (2 ^ 31)
    then ltb (pos + payload) pkt_size
    else ltb pos (pkt_size + 2 ^ 32 - payload)

-- The last datagram, shorter than the others.
unfoldable pub send_last : List ℕ → List ℕ → ℕ → ℕ → ℕ → Option (List (List ℕ))
send_last packet tx pkt_size pos frag_cnt = do
  tx ← memcpy tx header_size (drop pos packet) (pkt_size - pos)
  tx ← put_fragment_nr tx frag_cnt
  some (take (pkt_size - pos + header_size) tx ∷ [])

-- The loop, on fuel; `tx` is `tx_packet`. `none` is an access outside a buffer, or no fuel left.
unfoldable pub send_loop : ℕ → List ℕ → List ℕ → ℕ → ℕ → ℕ → ℕ → Option (List (List ℕ))
send_loop zero packet tx pkt_size mtu pos frag_cnt = none
send_loop (suc fuel) packet tx pkt_size mtu pos frag_cnt =
    elim (before_last pos pkt_size (payload_size mtu)) [
      | true ↦ do
        tx ← put_fragment_nr tx frag_cnt
        tx ← memcpy tx header_size (drop pos packet) (size_of_int (payload_size mtu))
        rest ← send_loop fuel packet tx pkt_size mtu (pos + payload_size mtu) (frag_cnt + 1)
        some (take mtu tx ∷ rest)
      | false ↦ send_last packet tx pkt_size pos frag_cnt
    ]

-- `tx` is what `alloca (mtu + 10)` yields; every round moves on, so `pkt_size` rounds suffice.
unfoldable pub netjack_sendto : List ℕ → List ℕ → ℕ → ℕ → Option (List (List ℕ))
netjack_sendto tx packet pkt_size mtu =
    if leb pkt_size mtu
    then (do packet ← put_fragment_nr packet 0; some (take pkt_size packet ∷ []))
    else (do
      tx ← memcpy tx 0 packet header_size
      send_loop pkt_size packet tx pkt_size mtu header_size 0)
