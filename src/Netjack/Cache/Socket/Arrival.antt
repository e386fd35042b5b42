-- ===== src/Netjack/Cache/Socket/Arrival.antt =====
-- The datagrams that `netjack_sendto` makes of a packet, drained into a cache.
use jack_example_tools.Base.{
  ℕ, zero, suc, ◌+◌, ◌<◌, ◌≤◌, ◌≡◌, inl, inr, refl, sym, ap, ◌∙◌, arith, true, false, some,
  Bool-cases, List, [], ◌∷◌, ◌++◌, All, length, take, drop, get_or, get_elem?-get_or,
  get_elem?-append_left, some_inj,
}
use mathlib.Core.List.{reverse_aux}
use jack_example_tools.Bytes.{splice, read32}
use jack_example_tools.Bytes.Laws.{length-splice, read32_congr}
use jack_example_tools.Netjack.Packet.{framecnt_at}
use jack_example_tools.Netjack.Packet.Valid.{IsConfig, fragment_count}
use jack_example_tools.Netjack.Send.Fragments.{IsFragment}
use jack_example_tools.Netjack.Send.Loop.{Sent}
use jack_example_tools.Netjack.Transfer.Whole.{gram_frame}
use jack_example_tools.Netjack.Cache.{PacketCache}
use jack_example_tools.Netjack.Cache.Valid.{IsCache}
use jack_example_tools.Netjack.Cache.Socket.{
  Received, Drain, is_stranger, setup_master, is_late, drain_round, packet_cache_drain_socket,
}
use jack_example_tools.Netjack.Cache.Socket.Safe.{setup_master-Drained}
use jack_example_tools.Netjack.Cache.Socket.Held.{Holding, absent, held, accept-Holding}

-- Datagrams of one sender, each by its fragment number and the time at which it is read.
abbrev pub arrivals : ℕ → List (List ℕ) → List (ℕ × ℕ) → List Received
arrivals sender grams [] = []
arrivals sender grams ((k, now) ∷ kts) =
    record { bytes = get_or grams k []; sender = sender; now = now } ∷ arrivals sender grams kts

abbrev pub numbers : List (ℕ × ℕ) → List ℕ
numbers [] = []
numbers ((k, now) ∷ kts) = k ∷ numbers kts

-- The time of the last one.
abbrev pub last_time : ℕ → List (ℕ × ℕ) → ℕ
last_time t [] = t
last_time t ((k, now) ∷ kts) = last_time now kts

take_within : (n : ℕ) (xs : List ℕ) → length xs ≤ n → take n xs ≡ xs
take_within zero [] h = refl
take_within zero (x ∷ xs) h = absurd (omega arith)
take_within (suc n) [] h = refl
take_within (suc n) (x ∷ xs) h = ap (◌∷◌ x) (take_within n xs (omega arith))

-- What a sender that is the master, or becomes it, changes.
setup_same :
    (c : PacketCache) (sender f : ℕ)
    → (c.master_address_valid ≡ true → c.master_address ≡ sender)
    → (is_stranger c sender ≡ false)
      × ((setup_master c sender).master_address_valid ≡ true)
      × ((setup_master c sender).master_address ≡ sender)
      × (is_late (setup_master c sender) f ≡ is_late c f)
      × ((setup_master c sender).packets ≡ c.packets)
unfolding setup_master is_late is_stranger
setup_same c sender f m = elim (Bool-cases c.master_address_valid) [
  | inl e ↦ ground (arith, m e)
  | inr e ↦ ground arith
]

is_late_same :
    (c c' : PacketCache) (f : ℕ)
    → c'.last_framecnt_retreived ≡ c.last_framecnt_retreived
    → c'.last_framecnt_retreived_valid ≡ c.last_framecnt_retreived_valid
    → is_late c' f ≡ is_late c f
unfolding is_late
is_late_same c c' f e d = rw (e, d)

-- The cache and the receive buffer after the fragments `ks`.
pub record Arriving (packet : List ℕ) (pkt_size mtu f sender : ℕ) (ks : List ℕ) (t : ℕ) (s : Drain)
    : Type 0 where
  pub room : length s.rx_packet ≡ mtu
  pub cache : IsCache pkt_size mtu s.cache
  pub master : s.cache.master_address_valid ≡ true → s.cache.master_address ≡ sender
  pub fresh : is_late s.cache f ≡ false
  pub holding : Holding packet pkt_size mtu f ks t s.cache

module _ (packet : List ℕ) (pkt_size mtu f : ℕ) (cfg : IsConfig pkt_size mtu)
    (full : length packet ≡ pkt_size) (frame : read32 packet framecnt_at ≡ some f)
    (max_frames sender : ℕ) where
  Holding-setup :
      {ks : List ℕ} {t : ℕ} (c c' : PacketCache)
      → c'.packets ≡ c.packets
      → Holding packet pkt_size mtu f ks t c
      → Holding packet pkt_size mtu f ks t c'
  Holding-setup c c' e (absent none_yet nowhere) =
      absent none_yet (λ i p at. nowhere i p (rw e at at))
  Holding-setup c c' e (held i p at live part time) = held i p (rw e at) live part time

  -- One datagram of the packet.
  drain_round-Arriving :
      {ks : List ℕ} {t : ℕ} (s : Drain) (k : ℕ) (gram : List ℕ) (now : ℕ)
      → Arriving packet pkt_size mtu f sender ks t s
      → k < fragment_count pkt_size mtu
      → IsFragment packet pkt_size mtu k gram
      → (s' : Drain) × (drain_round max_frames s
            (record { bytes = gram; sender = sender; now = now })
          ≡ some s')
        × Arriving packet pkt_size mtu f sender (k ∷ ks) now s'
  unfolding drain_round splice
  drain_round-Arriving {ks} {t} s k gram now a inside g =
      let size : length gram ≤ mtu = omega (arith, g.size, cfg.mtu_min) in
      let got : take s.cache.mtu gram ≡ gram =
        take_within s.cache.mtu gram (omega (arith, size, a.cache.mtu_eq)) in
      let rest = drop (0 + length gram) s.rx_packet in
      let c = setup_master s.cache sender in
      let (known, valid, address, late, packets) = setup_same s.cache sender f a.master in
      let d = setup_master-Drained pkt_size mtu sender a.cache in
      let read : read32 (gram ++ rest) framecnt_at ≡ some f =
        read32_congr (gram ++ rest) gram framecnt_at
          (λ i low high. get_elem?-append_left gram rest i (omega (arith, g.size)))
        ∙ gram_frame packet pkt_size mtu f cfg full frame inside g in
      let (c', ran, d', holding) =
        accept-Holding packet pkt_size mtu f cfg full frame max_frames k gram rest now d.cache
          (late ∙ a.fresh) (Holding-setup s.cache c packets a.holding) inside g in
      (
        record { cache = c'; rx_packet = gram ++ rest },
        rw (got, known, read, late, a.fresh, ran) refl,
        record {
          room = length-splice s.rx_packet 0 gram (omega (arith, size, a.room)) ∙ a.room;
          cache = d'.cache;
          master = λ m. (d'.master valid).1 ∙ address;
          fresh = is_late_same c c' f d'.retreived.0 d'.retreived.1 ∙ late ∙ a.fresh;
          holding = holding;
        },
      )

  -- All of them.
  pub drain_socket-Arriving :
      (grams : List (List ℕ))
      → Sent packet pkt_size mtu 0 grams
      → (kts : List (ℕ × ℕ)) (acc : List ℕ) (t : ℕ) (s : Drain)
      → All (λ k. k < fragment_count pkt_size mtu) (numbers kts)
      → Arriving packet pkt_size mtu f sender acc t s
      → (s' : Drain) × (packet_cache_drain_socket max_frames s (arrivals sender grams kts)
          ≡ some s')
        × Arriving packet pkt_size mtu f sender (reverse_aux (numbers kts) acc) (last_time t kts) s'
  unfolding packet_cache_drain_socket
  drain_socket-Arriving grams sent [] acc t s h a = (s, refl, a)
  drain_socket-Arriving grams sent ((k, now) ∷ kts) acc t s (h, hs) a =
      let (g, e, fragment) = sent.each k (omega (arith, sent.count)) in
      let number : 0 + k ≡ k = omega arith in
      let found : get_or grams k [] ≡ g =
        some_inj (sym (get_elem?-get_or grams k [] (omega (arith, sent.count))) ∙ e) in
      let (s₁, ran, a₁) = drain_round-Arriving s k g now a h (rw number at fragment) in
      let (s', rest, a') = drain_socket-Arriving grams sent kts (k ∷ acc) now s₁ hs a₁ in
      (s', rw (found, ran) rest, a')
