-- ===== src/Netjack/Send/Loop.antt =====
-- `netjack_sendto` sends every fragment once, in order, and its loop ends.
use jack_example_tools.Base.{
  ℕ, zero, suc, ◌+◌, ◌-◌, ◌*◌, ◌/◌, ◌≤◌, ◌<◌, ◌≡◌, inl, inr, refl, ◌∙◌, ap, List, [], ◌∷◌, some,
  true, false, arith, ltb, leb, leb→le, leb→lt, ltb→lt, ltb→le, Bool-cases, length, drop, take,
  length-take, get_elem?, get_elem?-take,
}
use jack_example_tools.Machine.{size_of_int}
use jack_example_tools.Bytes.{splice, memcpy}
use jack_example_tools.Bytes.Laws.{memcpy_lem, length-splice, get_elem?-splice_in}
use jack_example_tools.Netjack.Packet.{header_size, fragment_nr_at, payload_size}
use jack_example_tools.Netjack.Packet.Valid.{IsConfig, fragment_count, payload_size_lem}
use jack_example_tools.Netjack.Send.{
  put_fragment_nr, before_last, send_last, send_loop, netjack_sendto,
}
use jack_example_tools.Netjack.Send.Fragments.{
  IsFragment, HasHeader, put_fragment_nr_lem, numbered, length-numbered, numbered_before,
  numbered_at, numbered_after, number_then_block, block_then_number, Loaded-IsFragment,
}

-- The datagrams from number `k` on.
pub record Sent (packet : List ℕ) (pkt_size mtu k : ℕ) (grams : List (List ℕ)) : Type 0 where
  pub count : length grams + k ≡ fragment_count pkt_size mtu
  pub each :
      (i : ℕ)
      → i < length grams
      → (g : List ℕ) × (get_elem? grams i ≡ some g) × IsFragment packet pkt_size mtu (k + i) g

div_unique : (n p k : ℕ) → k * p ≤ n → n < k * p + p → n / p ≡ k
div_unique n p k h q = grind arith

-- One round of the loop, and its end.
module _ (fuel : ℕ) (packet tx : List ℕ) (pkt_size mtu pos k : ℕ) where
  send_loop_more :
      {a b : List ℕ} {rest : List (List ℕ)}
      → before_last pos pkt_size (payload_size mtu) ≡ true
      → put_fragment_nr tx k ≡ some a
      → memcpy a header_size (drop pos packet) (size_of_int (payload_size mtu)) ≡ some b
      → send_loop fuel packet b pkt_size mtu (pos + payload_size mtu) (k + 1) ≡ some rest
      → send_loop (suc fuel) packet tx pkt_size mtu pos k ≡ some (take mtu b ∷ rest)
  unfolding send_loop
  send_loop_more t e d r = rw (t, send_loop) (rw (e, d, r))

  send_loop_done :
      before_last pos pkt_size (payload_size mtu) ≡ false
      → send_loop (suc fuel) packet tx pkt_size mtu pos k ≡ send_last packet tx pkt_size pos k
  unfolding send_loop
  send_loop_done t = rw (t, send_loop)

module _ (packet : List ℕ) (pkt_size mtu : ℕ) (c : IsConfig pkt_size mtu)
    (full : length packet ≡ pkt_size) where
  last_count :
      (k : ℕ)
      → header_size + k * (mtu - header_size) < pkt_size
      → pkt_size ≤ header_size + k * (mtu - header_size) + (mtu - header_size)
      → fragment_count pkt_size mtu ≡ k + 1
  last_count k h q = ground (arith, div_unique (pkt_size - 57) (mtu - header_size) k)

  before_last_lem :
      (pos : ℕ)
      → before_last pos pkt_size (payload_size mtu) ≡ ltb (pos + (mtu - header_size)) pkt_size
  unfolding before_last
  before_last_lem pos = rw (payload_size_lem mtu c.mtu_min c.mtu_max) (ground (arith, c.mtu_max))

  Sent-cons :
      (k : ℕ) {g : List ℕ} {rest : List (List ℕ)}
      → IsFragment packet pkt_size mtu k g
      → Sent packet pkt_size mtu (k + 1) rest
      → Sent packet pkt_size mtu k (g ∷ rest)
  Sent-cons k {g} {rest} f s = record { count = omega (arith, s.count); each = each }
    where
      each :
          (i : ℕ)
          → i < length (g ∷ rest)
          → (h : List ℕ) × (get_elem? (g ∷ rest) i ≡ some h)
            × IsFragment packet pkt_size mtu (k + i) h
      each zero h = (g, refl, (let e : k + 0 ≡ k = omega arith in rw e f))
      each (suc i) h =
          let (x, e, fx) = s.each i (omega arith) in
          (x, e, (let eq : k + suc i ≡ k + 1 + i = omega arith in rw eq fx))

  send_last_lem :
      (tx : List ℕ) (k : ℕ)
      → length tx ≡ mtu + 10
      → HasHeader packet tx
      → header_size + k * (mtu - header_size) < pkt_size
      → pkt_size ≤ header_size + k * (mtu - header_size) + (mtu - header_size)
      → (grams : List (List ℕ)) × (send_last packet tx pkt_size
            (header_size + k * (mtu - header_size))
            k
          ≡ some grams)
        × Sent packet pkt_size mtu k grams
  unfolding send_last
  send_last_lem tx k size head h q =
      let pos = header_size + k * (mtu - header_size) in
      let n = pkt_size - pos in
      let (t, u, copied, done, l) =
        block_then_number packet tx k pos n (omega (arith, c.mtu_min)) (omega arith) head in
      (
        take (n + header_size) u ∷ [],
        rw (copied, done),
        Sent-cons k
            (let e : header_size + n ≡ n + header_size = omega arith in
              rw e at
                (Loaded-IsFragment pkt_size mtu k n l (omega (arith, c.mtu_min)) (omega arith)))
            (record { count = omega (arith, last_count k h q); each = λ i j. elim j [ ] }),
      )

  send_loop_lem :
      (fuel : ℕ) (tx : List ℕ) (k : ℕ)
      → length tx ≡ mtu + 10
      → HasHeader packet tx
      → header_size + k * (mtu - header_size) < pkt_size
      → pkt_size ≤ fuel + (header_size + k * (mtu - header_size))
      → (grams : List (List ℕ)) × (send_loop fuel packet tx pkt_size mtu
            (header_size + k * (mtu - header_size))
            k
          ≡ some grams)
        × Sent packet pkt_size mtu k grams
  send_loop_lem zero tx k size head h q = absurd (omega arith)
  send_loop_lem (suc fuel) tx k size head h q =
      elim (Bool-cases (ltb (header_size + k * p + p) pkt_size)) [
        | inl more ↦
            let (t, loaded, l) =
              number_then_block packet tx k (header_size + k * p) p (omega (arith, c.mtu_min))
                (omega (arith, ltb→lt _ _ more)) head in
            let next : header_size + k * p + p ≡ header_size + (k + 1) * p = omega arith in
            let (rest, ran, sent) =
              send_loop_lem fuel t (k + 1) (l.size ∙ size) l.header (omega (arith, ltb→lt _ _ more))
                (omega (arith, c.mtu_min)) in
            (
              take mtu t ∷ rest,
              send_loop_more fuel packet tx pkt_size mtu (header_size + k * p) k
                  (before_last_lem (header_size + k * p) ∙ more)
                  (put_fragment_nr_lem tx k (omega (arith, c.mtu_min))) (rw (payload, small) loaded)
                  (rw (payload, next) ran),
              Sent-cons k
                  (let e : header_size + p ≡ mtu = omega (arith, c.mtu_min) in
                    rw e at (
                      Loaded-IsFragment pkt_size mtu k p l (omega (arith, c.mtu_min))
                        (omega (arith, ltb→lt _ _ more))))
                  sent,
            )
        | inr last ↦
            let (grams, ran, sent) = send_last_lem tx k size head h (ltb→le _ _ last) in
            (
              grams,
              send_loop_done fuel packet tx pkt_size mtu (header_size + k * p) k
                    (before_last_lem (header_size + k * p) ∙ last)
                  ∙ ran,
              sent,
            )
      ]
    where
      p : ℕ
      p = mtu - header_size

      payload : payload_size mtu ≡ p
      payload = payload_size_lem mtu c.mtu_min c.mtu_max

      small : size_of_int p ≡ p
      small = ground (arith, c.mtu_max)

  -- Every packet is sent, whole and in order, as `fragment_count` datagrams.
  pub netjack_sendto-Sent :
      (tx : List ℕ)
      → length tx ≡ mtu + 10
      → (grams : List (List ℕ)) × (netjack_sendto tx packet pkt_size mtu ≡ some grams)
        × Sent packet pkt_size mtu 0 grams
  unfolding netjack_sendto
  netjack_sendto-Sent tx size = elim (Bool-cases (leb pkt_size mtu)) [
    | inl one ↦
        let whole : IsFragment packet pkt_size mtu 0 (take pkt_size (numbered packet 0)) =
          numbered_whole (leb→le _ _ one) in
        (
          take pkt_size (numbered packet 0) ∷ [],
          rw (one, put_fragment_nr_lem packet 0 long),
          Sent-cons 0 whole (record {
            count = omega (arith, last_one (leb→le _ _ one));
            each = λ i j. elim j [ ];
          }),
        )
    | inr many ↦
        let h : mtu < pkt_size = leb→lt _ _ many in
        let fits : header_size ≤ length tx = omega (arith, c.mtu_min) in
        let hd = take header_size packet in
        let hd_size : length hd ≡ header_size = omega (arith, length-take header_size packet) in
        let (grams, ran, sent) =
          send_loop_lem pkt_size (splice tx 0 hd) 0 (length-splice tx 0 hd (omega arith) ∙ size)
            (λ i j.
              get_elem?-splice_in tx 0 hd (omega arith) i (omega arith) (omega arith)
              ∙ ap (get_elem? hd) {x = i - 0} {y = i} (omega arith)
              ∙ get_elem?-take header_size packet i (omega arith))
            (omega (arith, c.mtu_min)) (omega arith) in
        let start : header_size ≡ header_size + 0 * (mtu - header_size) = omega arith in
        (
          grams,
          rw (many, memcpy_lem tx 0 packet header_size fits long)
              (ap (λ n. send_loop pkt_size packet (splice tx 0 hd) pkt_size mtu n 0) start ∙ ran),
          sent,
        )
  ]
    where
      long : header_size ≤ length packet
      long = omega (arith, c.size_min)

      last_one : pkt_size ≤ mtu → fragment_count pkt_size mtu ≡ 1
      last_one h = ground (arith, div_unique (pkt_size - 57) (mtu - header_size) 0, c.mtu_min)

      numbered_whole :
          pkt_size ≤ mtu → IsFragment packet pkt_size mtu 0 (take pkt_size (numbered packet 0))
      numbered_whole h = record {
        size = omega (
          arith,
          length-take pkt_size (numbered packet 0),
          length-numbered packet 0 long,
          c.size_min,
        );
        header = λ i j.
            get_elem?-take pkt_size (numbered packet 0) i (omega (arith, c.size_min))
            ∙ numbered_before packet 0 long i j;
        number = λ i j.
            get_elem?-take pkt_size (numbered packet 0) (fragment_nr_at + i)
              (omega (arith, c.size_min))
            ∙ numbered_at packet 0 long i j;
        block = λ i j.
            get_elem?-take pkt_size (numbered packet 0) (header_size + i) (omega arith)
            ∙ numbered_after packet 0 long (header_size + i) (omega arith)
            ∙ ap (get_elem? packet) (omega arith);
      }
