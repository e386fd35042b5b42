-- ===== src/Netjack/Relay.antt =====
-- The way of a period from the ports of one client to those of another: rendered into a packet, sent
-- and received in datagrams, and rendered out of the packet.
use jack_example_tools.Base.{
  ℕ, ◌+◌, ◌-◌, ◌*◌, ◌^◌, ◌≤◌, ◌<◌, ◌≡◌, ◌⊎◌, sym, ap, ◌∙◌, arith, Bool, true, false, some, List, [],
  ◌++◌, map, length, length-append, length-drop, drop, get_or, get_elem?_ext, get_elem?-drop,
  get_elem?-append_left, All,
}
use jack_example_tools.Bytes.{ByteOrder, read32}
use jack_example_tools.Bytes.Laws.{read32_congr}
use jack_example_tools.Netjack.Packet.{
  CachePacket, header_size, framecnt_at, cache_packet_set_framecnt, cache_packet_is_complete,
}
use jack_example_tools.Netjack.Packet.Valid.{IsConfig, IsPacket, fragment_count}
use jack_example_tools.Netjack.Send.{netjack_sendto}
use jack_example_tools.Netjack.Send.Fragments.{numbered, length-numbered, numbered_after}
use jack_example_tools.Netjack.Transfer.{deliver}
use jack_example_tools.Netjack.Transfer.Whole.{transfer_lem, all_in}
use jack_example_tools.Netjack.Render.{
  JackPort, render_payload_to_jack_ports_float, render_jack_ports_to_payload_float,
}
use jack_example_tools.Netjack.Render.Carried.{Paired, drop-append}
use jack_example_tools.Netjack.Render.RoundTrip.{Match, arrived, payload_to_ports-ports_to_payload}

-- The number in the header leaves the payload as it is.
payload-numbered :
    (packet : List ℕ)
    → header_size ≤ length packet
    → drop header_size (numbered packet 0) ≡ drop header_size packet
payload-numbered packet long =
    get_elem?_ext _ _
      (omega (
        arith,
        length-drop header_size (numbered packet 0),
        length-drop header_size packet,
        length-numbered packet 0 long,
      ))
      (λ i h.
        get_elem?-drop header_size (numbered packet 0) i
        ∙ numbered_after packet 0 long (header_size + i) (omega arith)
        ∙ sym (get_elem?-drop header_size packet i))

module _ {S : Type 0} {S' : Type 0} (order order' : ByteOrder) (dont_htonl_floats : Bool)
    (agree : (dont_htonl_floats ≡ false) ⊎ (order ≡ order'))
    (src_process : S → List ℕ → ℕ → S × List ℕ) (src_process' : S' → List ℕ → ℕ → S' × List ℕ)
    (n : ℕ) (positive : 0 < n) (high : n < 2 ^ 31) (pkt_size mtu f : ℕ)
    (c : IsConfig pkt_size mtu) where
  -- Two clients with one period and the same types of ports, that agree on the form of samples: the
  -- sender renders its ports into the payload of a packet and sends it; when the datagrams, in any order
  -- and with repetitions, have all arrived, the cached packet is complete, and its payload rendered to
  -- the receiver's ports gives them the sender's samples, and the events for which there was room.
  pub relay_ports :
      (ports ports' : List JackPort) (srcs : List S) (srcs' : List S')
      (header payload tx ks : List ℕ) (pack : CachePacket)
      → Paired (Match n) ports ports'
      → length ports * (4 * n) ≤ length payload
      → length header ≡ header_size
      → length payload ≡ pkt_size - header_size
      → read32 header framecnt_at ≡ some f
      → length tx ≡ mtu + 10
      → IsPacket pkt_size mtu pack
      → All (λ k. k < fragment_count pkt_size mtu) ks
      → all_in (fragment_count pkt_size mtu) ks ≡ true
      → (payload' : List ℕ) × (grams : List (List ℕ)) × (pack' : CachePacket)
        × (render_jack_ports_to_payload_float src_process order dont_htonl_floats ports srcs n
              payload n
            ≡ some (record { payload = payload'; ports = ports; srcs = srcs }))
        × (netjack_sendto tx (header ++ payload') pkt_size mtu ≡ some grams)
        × (deliver (cache_packet_set_framecnt pack f) (map (λ k. get_or grams k []) ks)
            ≡ some pack')
        × (cache_packet_is_complete pack' ≡ true)
        × (render_payload_to_jack_ports_float src_process' order' dont_htonl_floats
              (some (drop header_size pack'.packet_buf))
              n
              ports'
              srcs'
              n
            ≡ some (record { payload = payload'; ports = map (arrived n) ports; srcs = srcs' }))
  relay_ports ports ports' srcs srcs' header payload tx ks pack same room size rest frame long is
        inside all =
      let (payload', rendered, kept, got) =
        payload_to_ports-ports_to_payload order order' dont_htonl_floats agree src_process
          src_process' n positive high ports ports' srcs srcs' payload same room in
      let whole = length-append header payload' in
      let full : length (header ++ payload') ≡ pkt_size =
        omega (arith, whole, size, rest, kept, c.size_min) in
      let numbered_frame : read32 (header ++ payload') framecnt_at ≡ some f =
        read32_congr (header ++ payload') header framecnt_at
          (λ j low up. get_elem?-append_left header payload' j (omega (arith, size, up)))
        ∙ frame in
      let (grams, pack', sent, count, ran, complete, holds) =
        transfer_lem (header ++ payload') pkt_size mtu f c full numbered_frame tx ks pack long is
          inside in
      let arrived_payload : drop header_size pack'.packet_buf ≡ payload' =
        ap (drop header_size) (holds all)
        ∙ payload-numbered (header ++ payload') (omega (arith, whole, size))
        ∙ drop-append header_size header payload' size in
      (payload', grams, pack', rendered, sent, ran, complete ∙ all, rw arrived_payload got)
