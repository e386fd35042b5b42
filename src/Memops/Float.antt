-- ===== src/Memops/Float.antt =====
-- The floating-point arithmetic that the code relies on, as a parameter, and the macros of
-- common/memops.c that turn a sample into an integer. An `int` is its bit pattern.
use jack_example_tools.Base.{
  ℕ, zero, suc, ◌+◌, ◌-◌, ◌*◌, ◌/◌, ◌%◌, ◌^◌, Bool, ltb, if◌then◌else◌, ℤ, pos, negsuc,
}

-- `float` and `double`, with the operations that the code uses of them: `≤` and `<`, arithmetic,
-- conversions of integers, decimal literals (`literal 2033 3` is `2.033f`), `lrintf`, `lrint`, `fmin`,
-- `fmax`, the truncating conversion, minimum and maximum of a vector unit, the truncation of a
-- `double`, and the 32 bits of a `float`.
pub record Floats : Type 1 where
  pub F : Type 0
  pub D : Type 0
  pub le : F → F → Bool
  pub lt : F → F → Bool
  pub add : F → F → F
  pub sub : F → F → F
  pub mul : F → F → F
  pub div : F → F → F
  pub of_int : ℤ → F
  pub literal : ℕ → ℕ → F
  pub lrintf : F → ℤ
  pub truncate : F → ℤ
  pub vmin : F → F → F
  pub vmax : F → F → F
  pub widen : F → D
  pub narrow : D → F
  pub mul_d : D → D → D
  pub div_d : D → D → D
  pub of_int_d : ℤ → D
  pub lrint : D → ℤ
  pub fmin : D → D → D
  pub fmax : D → D → D
  pub add_d : D → D → D
  pub sub_d : D → D → D
  pub truncate_d : D → ℤ
  pub bits : F → ℕ
  pub of_bits : ℕ → F

-- The conversion of an integer to `int`, and the number that an `int` stands for.
abbrev pub int_bits : ℤ → ℕ
int_bits (pos n) = n % 2 ^ 32
int_bits (negsuc n) = 2 ^ 32 - 1 - n % 2 ^ 32

abbrev pub int_value : ℕ → ℤ
int_value w = if ltb w (2 ^ 31) then pos w else negsuc (2 ^ 32 - w - 1)

-- `w << 8` and `w >> 8` of an `int`, the latter with the sign kept.
abbrev pub shift_up : ℕ → ℕ
shift_up w = w * 2 ^ 8 % 2 ^ 32

abbrev pub shift_down : ℕ → ℕ
shift_down w = if ltb w (2 ^ 31) then w / 2 ^ 8 else w / 2 ^ 8 + (2 ^ 32 - 2 ^ 24)

-- `SAMPLE_16BIT_MAX` and the others.
abbrev pub max_16 : ℕ
max_16 = 32767

abbrev pub max_24 : ℕ
max_24 = 8388607

abbrev pub max_32 : ℕ
max_32 = 2147483647

-- -n
abbrev pub minus : ℕ → ℤ
minus zero = pos 0
minus (suc n) = negsuc n

module _ (fl : Floats) where
  open fl use {
    F, le, lt, mul, sub, of_int, lrintf, truncate, vmin, vmax, widen, mul_d, of_int_d, lrint, fmin,
    fmax,
  }

  -- `NORMALIZED_FLOAT_MIN` and `NORMALIZED_FLOAT_MAX`
  abbrev pub float_min : F
  float_min = of_int (minus 1)

  abbrev pub float_max : F
  float_max = of_int (pos 1)

  unfoldable pub float_16 : F → ℕ
  float_16 s =
      if le s float_min
      then int_bits (minus max_16)
      else if le float_max s
      then int_bits (pos max_16)
      else int_bits (lrintf (mul s (of_int (pos max_16))))

  unfoldable pub float_16_scaled : F → ℕ
  float_16_scaled s =
      if le s (of_int (minus max_16))
      then int_bits (minus max_16)
      else if le (of_int (pos max_16)) s
      then int_bits (pos max_16)
      else int_bits (lrintf s)

  unfoldable pub float_24 : F → ℕ
  float_24 s =
      if le s float_min
      then int_bits (minus max_24)
      else if le float_max s
      then int_bits (pos max_24)
      else int_bits (lrintf (mul s (of_int (pos max_24))))

  unfoldable pub float_24l32 : F → ℕ
  float_24l32 s =
      if le s float_min
      then int_bits (minus max_24)
      else if le float_max s
      then int_bits (pos max_24)
      else int_bits (lrintf (mul s (of_int (pos max_24))))

  unfoldable pub float_24u32 : F → ℕ
  float_24u32 s =
      if le s float_min
      then shift_up (int_bits (minus max_24))
      else if le float_max s
      then shift_up (int_bits (pos max_24))
      else shift_up (int_bits (lrintf (mul s (of_int (pos max_24)))))

  unfoldable pub float_32 : F → ℕ
  float_32 s =
      let clipped = fmin (of_int_d (pos 1)) (fmax (widen s) (of_int_d (minus 1))) in
      int_bits (lrint (mul_d clipped (of_int_d (pos max_32))))

  -- `_mm_max_ps (a, b)` and `_mm_min_ps (a, b)` of one lane: the second operand where the comparison
  -- fails.
  abbrev pub max_ps : F → F → F
  max_ps a b = if lt b a then a else b

  abbrev pub min_ps : F → F → F
  min_ps a b = if lt a b then a else b

  -- One lane of `clip`, with the vector units of SSE2 and NEON.
  unfoldable pub clip_sse : F → F → F → F
  clip_sse s min max = min_ps max (max_ps s min)

  unfoldable pub clip_neon : F → F → F → F
  clip_neon s min max = vmin max (vmax s min)

  -- `_mm_cvtps_epi32` rounds as `lrintf` does.
  unfoldable pub float_24_sse : F → ℕ
  float_24_sse s = int_bits (lrintf (mul (clip_sse s float_min float_max) (of_int (pos max_24))))

  unfoldable pub float_24_neon : F → ℕ
  float_24_neon s =
      int_bits (truncate (mul (clip_neon s float_min float_max) (of_int (pos max_24))))

  unfoldable pub float_16_neon : F → ℕ
  float_16_neon s =
      int_bits (truncate (mul (clip_neon s float_min float_max) (of_int (pos max_16)))) % 2 ^ 16
