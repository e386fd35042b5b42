-- ===== src/Netjack/Transfer/Whole.antt =====
-- The whole transfer: from the datagrams of one packet to the reassembled packet.
use jack_example_tools.Base.{
  ℕ, zero, suc, ◌+◌, ◌-◌, ◌*◌, ◌^◌, ◌≤◌, ◌<◌, ◌≡◌, inl, inr, refl, ap, sym, ◌∙◌, arith, ◌==◌,
  ==_iff, if◌then◌else◌, le→leb, ltb, ltb→lt, ltb→le, Bool, Bool-cases, ◌||◌, true, List, [], ◌∷◌,
  map, ◌&&◌, not, get_or_of, some, All, length, get_elem?, get_or, get_elem?-get_or, get_elem?_ext,
  some_inj, take, drop, length-take, length-drop, get_elem?-take, get_elem?-drop,
}
use mathlib.Core.List.{reverse_aux}
use jack_example_tools.Machine.{rounds}
use jack_example_tools.Bytes.{read32}
use jack_example_tools.Bytes.Laws.{read32_congr, read32-net32}
use jack_example_tools.Netjack.Packet.{
  CachePacket, header_size, fragment_nr_at, framecnt_at, all_set, cache_packet_set_framecnt,
  cache_packet_add_fragment, cache_packet_is_complete,
}
use jack_example_tools.Netjack.Packet.Valid.{
  IsConfig, IsPacket, fragment_count, block_start, fragment_count_max, fragment_count_pos,
}
use jack_example_tools.Netjack.Packet.Fragment.{
  with_fragment, add_fragment_zero, add_fragment_later,
}
use jack_example_tools.Netjack.Send.{netjack_sendto}
use jack_example_tools.Netjack.Send.Fragments.{
  IsFragment, block_size, numbered, numbered_before, numbered_at, numbered_after, length-numbered,
}
use jack_example_tools.Netjack.Send.Loop.{Sent, netjack_sendto-Sent}
use jack_example_tools.Netjack.Transfer.{deliver}
use jack_example_tools.Netjack.Transfer.Blocks.{block_from, block_from-suc, block_of, has}
use jack_example_tools.Netjack.Transfer.Store.{Partial, set_framecnt-Partial, with_fragment-Partial}

module _ (packet : List ℕ) (pkt_size mtu f : ℕ) (c : IsConfig pkt_size mtu)
    (full : length packet ≡ pkt_size) (frame : read32 packet framecnt_at ≡ some f) where
  long : header_size ≤ length packet
  long = omega (arith, c.size_min)

  module _ {k : ℕ} {gram : List ℕ} (inside : k < fragment_count pkt_size mtu)
      (g : IsFragment packet pkt_size mtu k gram) where
    gram_number : read32 gram fragment_nr_at ≡ some k
    gram_number =
        read32-net32 gram fragment_nr_at k (omega (arith, fragment_count_max pkt_size mtu c))
          (g.number 0 (omega arith)) (g.number 1 (omega arith)) (g.number 2 (omega arith))
          (g.number 3 (omega arith))

    pub gram_frame : read32 gram framecnt_at ≡ some f
    gram_frame = read32_congr gram packet framecnt_at (λ i a b. g.header i (omega arith)) ∙ frame

    gram_size : length gram < 2 ^ 31
    gram_size = omega (arith, g.size, c.mtu_max, c.mtu_min)

    -- Past its number the datagram agrees with the image.
    gram_block :
        (i : ℕ)
        → i < block_size pkt_size mtu k
        → get_elem? gram (header_size + i)
          ≡ get_elem? (numbered packet 0) (header_size + k * (mtu - header_size) + i)
    gram_block i h =
        g.block i h
        ∙ sym
            (numbered_after packet 0 long (header_size + k * (mtu - header_size) + i) (omega arith))

  gram_zero :
      {gram : List ℕ}
      → IsFragment packet pkt_size mtu 0 gram
      → (i : ℕ) → i < length gram
      → get_elem? gram i ≡ get_elem? (numbered packet 0) i
  gram_zero {gram} g i h = elim (Bool-cases (ltb i fragment_nr_at)) [
    | inl head ↦
        g.header i (ltb→lt _ _ head) ∙ sym (numbered_before packet 0 long i (ltb→lt _ _ head))
    | inr rest ↦
        let low : fragment_nr_at ≤ i = ltb→le _ _ rest in
        elim (Bool-cases (ltb i header_size)) [
          | inl number ↦
              let e : fragment_nr_at + (i - fragment_nr_at) ≡ i = omega arith in
              let small : i - fragment_nr_at < 4 = omega (arith, ltb→lt _ _ number) in
              rw e at (
                g.number (i - fragment_nr_at) small
                ∙ sym (numbered_at packet 0 long (i - fragment_nr_at) small))
          | inr block ↦
              let high : header_size ≤ i = ltb→le _ _ block in
              let e : header_size + (i - header_size) ≡ i = omega arith in
              let z : header_size + 0 * (mtu - header_size) + (i - header_size) ≡ i = omega arith in
              ap (get_elem? gram) (sym e)
              ∙ gram_block (fragment_count_pos pkt_size mtu c) g (i - header_size)
                  (omega (arith, g.size))
              ∙ ap (get_elem? (numbered packet 0)) z
        ]
  ]

  pub add_fragment-Partial :
      (ks : List ℕ) (k : ℕ) (gram : List ℕ) {pack : CachePacket}
      → Partial pkt_size mtu (numbered packet 0) f ks pack
      → k < fragment_count pkt_size mtu
      → IsFragment packet pkt_size mtu k gram
      → (pack' : CachePacket) × (cache_packet_add_fragment pack gram (length gram) ≡ some pack')
        × Partial pkt_size mtu (numbered packet 0) f (k ∷ ks) pack'
  add_fragment-Partial ks zero gram {pack} p inside g =
      let same = gram_frame inside g ∙ ap some (sym p.frame) in
      let src = take (length gram) gram in
      let size : length src ≡ length gram = omega (arith, length-take (length gram) gram) in
      (
        with_fragment pack 0 0 src,
        add_fragment_zero c p.packet gram (length gram) (omega (arith, g.size)) (omega arith)
            (gram_size inside g) same (gram_number inside g) (omega (arith, g.size, c.size_min)),
        with_fragment-Partial pkt_size mtu c (numbered packet 0) f ks p 0 inside src
            (omega (arith, g.size, c.size_min, c.mtu_min))
            (λ i h.
              get_elem?-take (length gram) gram i (omega arith)
              ∙ gram_zero g i (omega arith)
              ∙ ap (get_elem? (numbered packet 0)) (omega arith)),
      )
  add_fragment-Partial ks (suc k) gram {pack} p inside g =
      let same = gram_frame inside g ∙ ap some (sym p.frame) in
      let start = block_start pkt_size mtu c (suc k) inside (λ e. absurd (omega arith)) in
      let n = length gram - header_size in
      let src = take n (drop header_size gram) in
      let size : length src ≡ n =
        omega (arith, length-take n (drop header_size gram), length-drop header_size gram) in
      (
        with_fragment pack (suc k) (block_from mtu (suc k)) src,
        rw (block_from-suc mtu k) (
            add_fragment_later c p.packet gram (length gram) (omega (arith, g.size)) (omega arith)
              (gram_size inside g) same (suc k) (gram_number inside g) (λ e. absurd (omega arith))
              inside
            ∙ rw (
                le→leb (suc k * (mtu - header_size) + length gram) pkt_size
                  (omega (arith, g.size)))),
        with_fragment-Partial pkt_size mtu c (numbered packet 0) f ks p (suc k) inside src
            (omega (arith, g.size, c.mtu_min, block_from-suc mtu k))
            (λ i h.
              get_elem?-take n (drop header_size gram) i (omega arith)
              ∙ get_elem?-drop header_size gram i
              ∙ gram_block inside g i (omega (arith, g.size))
              ∙ ap (get_elem? (numbered packet 0)) (omega (arith, block_from-suc mtu k))),
      )

  -- The datagrams that arrive, by their numbers.
  deliver-Partial :
      (grams : List (List ℕ))
      → Sent packet pkt_size mtu 0 grams
      → (ks acc : List ℕ) {pack : CachePacket} → All (λ k. k < fragment_count pkt_size mtu) ks
      → Partial pkt_size mtu (numbered packet 0) f acc pack
      → (pack' : CachePacket) × (deliver pack (map (λ k. get_or grams k []) ks) ≡ some pack')
        × Partial pkt_size mtu (numbered packet 0) f (reverse_aux ks acc) pack'
  unfolding deliver
  deliver-Partial grams s [] acc {pack} h p = (pack, refl, p)
  deliver-Partial grams s (k ∷ ks) acc {pack} (h, hs) p =
      let (g, e, fragment) = s.each k (omega (arith, s.count)) in
      let number : 0 + k ≡ k = omega arith in
      let found : get_or grams k [] ≡ g =
        some_inj (sym (get_elem?-get_or grams k [] (omega (arith, s.count))) ∙ e) in
      let (q, added, pq) = add_fragment-Partial acc k g p h (rw number at fragment) in
      let (r, ran, pr) = deliver-Partial grams s ks (k ∷ acc) hs pq in
      (r, rw (found, added) ran, pr)

pub has-reverse_aux :
    (k : ℕ) (ks acc : List ℕ) → has k (reverse_aux ks acc) ≡ (has k ks || has k acc)
has-reverse_aux k [] acc = refl
has-reverse_aux k (x ∷ ks) acc = ground (arith, has-reverse_aux k ks (x ∷ acc))

-- Every number below `n` is in the list.
abbrev pub all_in : ℕ → List ℕ → Bool
all_in zero ks = true
all_in (suc n) ks = all_in n ks && has n ks

all_set-suc :
    (n : ℕ) (xs : List ℕ) → all_set (suc n) xs ≡ (all_set n xs && not (get_or xs n 0 == 0))
unfolding all_set
all_set-suc zero [] = refl
all_set-suc zero (x ∷ xs) = ground arith
all_set-suc (suc n) [] = refl
all_set-suc (suc n) (x ∷ xs) = ground (arith, all_set-suc n xs)

-- The flags read as the list of the numbers whose flag is set.
all_set-all_in :
    (n : ℕ) (xs ks : List ℕ)
    → ((k : ℕ) → k < n → get_elem? xs k ≡ some (if has k ks then 1 else 0))
    → all_set n xs ≡ all_in n ks
unfolding all_set
all_set-all_in zero xs ks flags = refl
all_set-all_in (suc n) xs ks flags =
    rw
      (
        all_set-suc n xs,
        all_set-all_in n xs ks (λ k h. flags k (omega arith)),
        get_or_of xs n 0 (flags n (omega arith)),
      )
      (ground arith)

module _ (packet : List ℕ) (pkt_size mtu f : ℕ) (c : IsConfig pkt_size mtu)
    (full : length packet ≡ pkt_size) (frame : read32 packet framecnt_at ≡ some f) where
  -- A packet that holds every block is the image.
  Partial-whole :
      (ks : List ℕ) {pack : CachePacket}
      → Partial pkt_size mtu (numbered packet 0) f ks pack
      → ((k : ℕ) → k < fragment_count pkt_size mtu → has k ks ≡ true)
      → pack.packet_buf ≡ numbered packet 0
  Partial-whole ks {pack} p every =
      get_elem?_ext pack.packet_buf (numbered packet 0)
        (omega (arith, p.packet.buf, length-numbered packet 0 (omega (arith, c.size_min))))
        (λ i h.
          let (k, inside, from, to) = block_of pkt_size mtu c i (omega (arith, p.packet.buf)) in
          p.bytes k i inside (every k inside) from to)

  all_in-has : (n : ℕ) (ks : List ℕ) → all_in n ks ≡ true → (k : ℕ) → k < n → has k ks ≡ true
  all_in-has zero ks e k h = elim h [ ]
  all_in-has (suc n) ks e k h = elim (Bool-cases (k == n)) [
    | inl same ↦ rw ((==_iff k n).0 same) (ground arith)
    | inr ne ↦ all_in-has n ks (ground arith) k (ground arith)
  ]

  all_in_congr :
      (n : ℕ) (ks ls : List ℕ) → ((k : ℕ) → has k ks ≡ has k ls) → all_in n ks ≡ all_in n ls
  all_in_congr zero ks ls same = refl
  all_in_congr (suc n) ks ls same = rw (all_in_congr n ks ls same, same n)

  -- A packet that received the fragments `ls`, which are the numbers of `ks` in some order.
  pub Partial-received :
      (ks ls : List ℕ) {pack : CachePacket}
      → Partial pkt_size mtu (numbered packet 0) f ls pack
      → ((k : ℕ) → has k ls ≡ has k ks)
      → (cache_packet_is_complete pack ≡ all_in (fragment_count pkt_size mtu) ks)
        × (all_in (fragment_count pkt_size mtu) ks ≡ true → pack.packet_buf ≡ numbered packet 0)
  unfolding cache_packet_is_complete
  Partial-received ks ls {pack} p same =
      let count : rounds pack.num_fragments ≡ fragment_count pkt_size mtu =
        ground (arith, p.packet.count_eq, fragment_count_max pkt_size mtu c) in
      (
        rw count (
            all_set-all_in (fragment_count pkt_size mtu) pack.fragment_array ls p.flag
            ∙ all_in_congr (fragment_count pkt_size mtu) ls ks same),
        λ e. Partial-whole ls p (λ k h. same k ∙ all_in-has (fragment_count pkt_size mtu) ks e k h),
      )

  -- The datagrams that `netjack_sendto` makes of a packet are received, in any order and with
  -- repetitions, without a fault; the cached packet is complete exactly when every number has
  -- arrived, and then it holds the packet sent (with 0 for the fragment number of its header).
  pub transfer_lem :
      (tx : List ℕ) (ks : List ℕ) (pack : CachePacket)
      → length tx ≡ mtu + 10
      → IsPacket pkt_size mtu pack
      → All (λ k. k < fragment_count pkt_size mtu) ks
      → (grams : List (List ℕ)) × (pack' : CachePacket) × (netjack_sendto tx packet pkt_size mtu
          ≡ some grams)
        × (length grams ≡ fragment_count pkt_size mtu)
        × (deliver (cache_packet_set_framecnt pack f) (map (λ k. get_or grams k []) ks)
            ≡ some pack')
        × (cache_packet_is_complete pack' ≡ all_in (fragment_count pkt_size mtu) ks)
        × (all_in (fragment_count pkt_size mtu) ks ≡ true → pack'.packet_buf ≡ numbered packet 0)
  transfer_lem tx ks pack size v inside =
      let (grams, sent, s) = netjack_sendto-Sent packet pkt_size mtu c full tx size in
      let start = set_framecnt-Partial pkt_size mtu c (numbered packet 0) f pack v in
      let (pack', ran, p) =
        deliver-Partial packet pkt_size mtu f c full frame grams s ks [] inside start in
      let (complete, whole) =
        Partial-received ks (reverse_aux ks []) p (λ k. has-reverse_aux k ks [] ∙ ground arith) in
      (grams, pack', sent, omega (arith, s.count), ran, complete, whole)
