-- ===== src/Memops/Range.antt =====
-- The macros of common/memops.c stay within their limits, and the vector unit rounds as the plain code
-- does.
use jack_example_tools.Base.{
  ℕ, zero, suc, ◌^◌, ◌≤◌, ◌<◌, ◌≡◌, refl, sym, ap, ◌∙◌, inl, inr, arith, true, false, not,
  Bool-cases, if◌then◌else◌, ℤ, pos, negsuc, ◌≤ℤ◌, pos_part, neg_part,
}
use jack_example_tools.Memops.Float.{
  Floats, int_bits, int_value, minus, max_16, max_24, float_16, float_16_scaled, float_24,
  float_24l32, float_24u32, shift_up, float_24_sse, clip_sse,
}

-- An integer from -max to max.
abbrev pub Within : ℕ → ℤ → Type 0
Within max z = (minus max ≤ℤ z) × (z ≤ℤ pos max)

pub minus_parts : (n : ℕ) → (pos_part (minus n) ≡ 0) × (neg_part (minus n) ≡ n)
minus_parts zero = (refl, refl)
minus_parts (suc n) = (refl, refl)

pub value-bits : (max : ℕ) (z : ℤ) → max < 2 ^ 31 → Within max z → int_value (int_bits z) ≡ z
value-bits max (pos n) h w = ground (arith, minus_parts max)
value-bits max (negsuc n) h w = ground (arith, minus_parts max)

minus-Within : (max : ℕ) → Within max (minus max)
minus-Within max = omega (arith, minus_parts max)

pos-Within : (max : ℕ) → Within max (pos max)
pos-Within max = omega (arith, minus_parts max)

module _ (fl : Floats) where
  open fl use {F, le, lt, mul, of_int, lrintf}

  abbrev pub IsNumber : F → Type 0
  IsNumber s = le s s ≡ true

  -- What the code relies on of `float`: the order of the numbers (a NaN is not even `≤` itself), that
  -- integers of up to 24 bits are exact, and that scaling by one of them and rounding keep the order.
  pub record FloatLaws : Type 0 where
    pub total : (a b : F) → IsNumber a → IsNumber b → le a b ≡ false → le b a ≡ true
    pub lt_le : (a b : F) → IsNumber a → IsNumber b → lt a b ≡ not (le b a)
    pub lrintf_same : (a b : F) → le a b ≡ true → le b a ≡ true → lrintf a ≡ lrintf b
    pub int_number : (z : ℤ) → IsNumber (of_int z)
    pub minus_one_one : le (of_int (minus 1)) (of_int (pos 1)) ≡ true
    pub mul_le :
        (a b : F) (n : ℕ)
        → 1 ≤ n
        → n ≤ 2 ^ 24
        → le a b ≡ true
        → le (mul a (of_int (pos n))) (mul b (of_int (pos n))) ≡ true
    pub lrintf-Within :
        (a : F) (n : ℕ)
        → n ≤ 2 ^ 24
        → le (of_int (minus n)) a ≡ true
        → le a (of_int (pos n)) ≡ true
        → Within n (lrintf a)
    pub lrintf_int : (z : ℤ) → Within (2 ^ 24) z → lrintf (of_int z) ≡ z
    pub mul_one : (n : ℕ) → n ≤ 2 ^ 24 → mul (of_int (pos 1)) (of_int (pos n)) ≡ of_int (pos n)
    pub mul_minus_one :
        (n : ℕ) → n ≤ 2 ^ 24 → mul (of_int (minus 1)) (of_int (pos n)) ≡ of_int (minus n)

module _ (fl : Floats) (laws : FloatLaws fl) where
  open fl use {F, le, lt, mul, of_int, lrintf}

  -- A scaled sample between the limits rounds to an integer between them.
  round-Within :
      (max : ℕ) (s : F)
      → 1 ≤ max
      → max ≤ 2 ^ 24
      → IsNumber fl s
      → le s (of_int (minus 1)) ≡ false
      → le (of_int (pos 1)) s ≡ false
      → Within max (lrintf (mul s (of_int (pos max))))
  round-Within max s h1 h num low high =
      let above = laws.total s (of_int (minus 1)) num (laws.int_number (minus 1)) low in
      let below = laws.total (of_int (pos 1)) s (laws.int_number (pos 1)) num high in
      let lower =
        ap (λ t. le t (mul s (of_int (pos max)))) (sym (laws.mul_minus_one max h))
        ∙ laws.mul_le (of_int (minus 1)) s max h1 h above in
      let upper =
        ap (le (mul s (of_int (pos max)))) (sym (laws.mul_one max h))
        ∙ laws.mul_le s (of_int (pos 1)) max h1 h below in
      laws.lrintf-Within (mul s (of_int (pos max))) max h lower upper

  pub clamped : ℕ → F → ℤ
  clamped max s =
      if le s (of_int (minus 1))
      then minus max
      else if le (of_int (pos 1)) s
      then pos max
      else lrintf (mul s (of_int (pos max)))

  clamped-Within :
      (max : ℕ) (s : F) → 1 ≤ max → max ≤ 2 ^ 24 → IsNumber fl s → Within max (clamped max s)
  unfolding clamped
  clamped-Within max s h1 h num = elim (Bool-cases (le s (of_int (minus 1)))) [
    | inl low ↦ rw low (minus-Within max)
    | inr low ↦ elim (Bool-cases (le (of_int (pos 1)) s)) [
      | inl high ↦ rw (low, high) (pos-Within max)
      | inr high ↦ rw (low, high) (round-Within max s h1 h num low high)
    ]
  ]

  pub float_16-clamped : (s : F) → float_16 fl s ≡ int_bits (clamped max_16 s)
  unfolding float_16 clamped
  float_16-clamped s = elim (Bool-cases (le s (of_int (minus 1)))) [
    | inl low ↦ rw low refl
    | inr low ↦ elim (Bool-cases (le (of_int (pos 1)) s)) [
      | inl high ↦ rw (low, high) refl
      | inr high ↦ rw (low, high) refl
    ]
  ]

  pub float_24-clamped : (s : F) → float_24 fl s ≡ int_bits (clamped max_24 s)
  unfolding float_24 clamped
  float_24-clamped s = elim (Bool-cases (le s (of_int (minus 1)))) [
    | inl low ↦ rw low refl
    | inr low ↦ elim (Bool-cases (le (of_int (pos 1)) s)) [
      | inl high ↦ rw (low, high) refl
      | inr high ↦ rw (low, high) refl
    ]
  ]

  pub float_24-float_24l32 : (s : F) → float_24l32 fl s ≡ float_24 fl s
  unfolding float_24 float_24l32
  float_24-float_24l32 s = refl

  pub float_24u32-shift_up : (s : F) → float_24u32 fl s ≡ shift_up (float_24 fl s)
  unfolding float_24 float_24u32
  float_24u32-shift_up s = elim (Bool-cases (le s (of_int (minus 1)))) [
    | inl low ↦ rw low refl
    | inr low ↦ elim (Bool-cases (le (of_int (pos 1)) s)) [
      | inl high ↦ rw (low, high) refl
      | inr high ↦ rw (low, high) refl
    ]
  ]

  scaled-Within : (s : F) → IsNumber fl s → Within max_16 (int_value (float_16_scaled fl s))
  unfolding float_16_scaled
  scaled-Within s num = elim (Bool-cases (le s (of_int (minus max_16)))) [
    | inl low ↦ rw low (minus-Within max_16)
    | inr low ↦ elim (Bool-cases (le (of_int (pos max_16)) s)) [
      | inl high ↦ rw (low, high) (pos-Within max_16)
      | inr high ↦
          let w =
            laws.lrintf-Within s max_16 (omega arith)
              (laws.total s (of_int (minus max_16)) num (laws.int_number (minus max_16)) low)
              (laws.total (of_int (pos max_16)) s (laws.int_number (pos max_16)) num high) in
          rw (low, high, value-bits max_16 (lrintf s) (omega arith) w) w
    ]
  ]

  -- Every number, however large, becomes an integer from -32767 to 32767 with the 16-bit macros and
  -- one from -8388607 to 8388607 with the 24-bit macros.
  pub float_16-Within :
      (s : F)
      → IsNumber fl s
      → Within max_16 (int_value (float_16 fl s))
        × Within max_16 (int_value (float_16_scaled fl s))
        × Within max_24 (int_value (float_24 fl s))
        × Within max_24 (int_value (float_24l32 fl s))
  float_16-Within s num =
      let small = clamped-Within max_16 s (omega arith) (omega arith) num in
      let large = clamped-Within max_24 s (omega arith) (omega arith) num in
      let wide : Within max_24 (int_value (float_24 fl s)) =
        rw (float_24-clamped s, value-bits max_24 (clamped max_24 s) (omega arith) large) large in
      (
        rw (float_16-clamped s, value-bits max_16 (clamped max_16 s) (omega arith) small) small,
        scaled-Within s num,
        wide,
        rw (float_24-float_24l32 s) wide,
      )

  at_one :
      (s : F)
      → le s (of_int (pos 1)) ≡ true
      → le (of_int (pos 1)) s ≡ true
      → lrintf (mul s (of_int (pos max_24))) ≡ pos max_24
  at_one s below above =
      laws.lrintf_same _ _ (laws.mul_le _ _ max_24 (omega arith) (omega arith) below)
        (laws.mul_le _ _ max_24 (omega arith) (omega arith) above)
      ∙ ap lrintf (laws.mul_one max_24 (omega arith))
      ∙ laws.lrintf_int (pos max_24) (omega arith, omega arith)

  -- SSE2 converts every number to the integer that the plain code converts it to.
  pub float_24_sse-float_24 : (s : F) → IsNumber fl s → float_24_sse fl s ≡ float_24 fl s
  unfolding float_24_sse float_24 clip_sse
  float_24_sse-float_24 s num =
      let first = laws.lt_le (of_int (minus 1)) s (laws.int_number (minus 1)) num in
      let second = laws.lt_le (of_int (pos 1)) s (laws.int_number (pos 1)) num in
      let ends =
        laws.lt_le (of_int (pos 1)) (of_int (minus 1)) (laws.int_number (pos 1))
          (laws.int_number (minus 1)) in
      elim (Bool-cases (le s (of_int (minus 1)))) [
        | inl low ↦
            rw (first, low, ends, laws.minus_one_one)
              (ap int_bits (
                ap lrintf (laws.mul_minus_one max_24 (omega arith))
                ∙ laws.lrintf_int (minus max_24) (omega arith, omega arith)))
        | inr low ↦ elim (Bool-cases (le (of_int (pos 1)) s)) [
          | inl high ↦ elim (Bool-cases (le s (of_int (pos 1)))) [
            | inl equal ↦ rw (first, low, second, high, equal) (ap int_bits (at_one s equal high))
            | inr above ↦
                rw (first, low, second, high, above)
                  (ap int_bits (
                    ap lrintf (laws.mul_one max_24 (omega arith))
                    ∙ laws.lrintf_int (pos max_24) (omega arith, omega arith)))
          ]
          | inr high ↦
              let below = laws.total (of_int (pos 1)) s (laws.int_number (pos 1)) num high in
              rw (first, low, second, high, below) refl
        ]
      ]
