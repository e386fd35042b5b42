-- ===== src/Netjack/Transfer/Blocks.antt =====
-- The ranges of the packet that the fragments carry: disjoint, and together the whole packet.
use jack_example_tools.Base.{
  ℕ, suc, ◌+◌, ◌-◌, ◌*◌, ◌/◌, ◌≤◌, ◌<◌, ◌≡◌, ◌≢◌, inl, inr, min, arith, ◌==◌, ltb, ltb→le,
  if◌then◌else◌, Bool-cases, ◌||◌, Bool, false, List, [], ◌∷◌,
}
use jack_example_tools.Netjack.Packet.{header_size}
use jack_example_tools.Netjack.Packet.Valid.{IsConfig, fragment_count}

-- Fragment 0 carries the header too.
abbrev pub block_from : ℕ → ℕ → ℕ
block_from mtu k = if k == 0 then 0 else header_size + k * (mtu - header_size)

pub block_from-suc :
    (mtu k : ℕ) → block_from mtu (suc k) ≡ header_size + suc k * (mtu - header_size)
block_from-suc mtu k = ground arith

abbrev pub block_to : ℕ → ℕ → ℕ → ℕ
block_to pkt_size mtu k = min pkt_size (header_size + (k + 1) * (mtu - header_size))

abbrev pub has : ℕ → List ℕ → Bool
has k [] = false
has k (x ∷ xs) = (x == k) || has k xs

mul_below : (k l p : ℕ) → k < l → (k + 1) * p ≤ l * p
mul_below k l p h = grind arith

div_bounds : (n p : ℕ) → 0 < p → (n / p * p ≤ n) × (n < (n / p + 1) * p)
div_bounds n p h = grind arith

div-lt : (n m p : ℕ) → 0 < p → n ≤ m → n / p < m / p + 1
div-lt n m p h q = grind arith

module _ (pkt_size mtu : ℕ) (c : IsConfig pkt_size mtu) where
  pub blocks_apart :
      (k l j : ℕ)
      → k ≢ l
      → block_from mtu k ≤ j
      → j < block_to pkt_size mtu k
      → block_from mtu l ≤ j
      → j < block_to pkt_size mtu l
      → ⊥
  blocks_apart k l j ne a b d e = elim (Bool-cases (ltb k l)) [
    | inl h ↦ ground (arith, mul_below k l (mtu - header_size))
    | inr h ↦ ground (arith, mul_below l k (mtu - header_size))
  ]

  pub block_of :
      (j : ℕ)
      → j < pkt_size
      → (k : ℕ) × (k < fragment_count pkt_size mtu)
        × (block_from mtu k ≤ j)
        × (j < block_to pkt_size mtu k)
  block_of j h = elim (Bool-cases (ltb j header_size)) [
    | inl front ↦ (0, ground arith, ground arith, ground arith)
    | inr back ↦
        let low : header_size ≤ j = ltb→le _ _ back in
        let bounds = div_bounds (j - header_size) (mtu - header_size) (omega (arith, c.mtu_min)) in
        let below =
          div-lt (j - header_size) (pkt_size - 57) (mtu - header_size) (omega (arith, c.mtu_min))
            (omega arith) in
        ((j - header_size) / (mtu - header_size), ground arith, ground arith, ground arith)
  ]
