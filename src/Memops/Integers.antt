-- ===== src/Memops/Integers.antt =====
-- Integers in the place of floating-point numbers: an instance of their operations and laws.
use jack_example_tools.Base.{
  ℕ, zero, suc, ◌+◌, ◌-◌, ◌*◌, ◌/◌, ◌^◌, ◌≤◌, ◌≡◌, refl, ap, ◌∙◌, inl, inr, arith, Bool, true,
  false, not, Bool-cases, leb, leb→le, leb→lt, le→leb, if◌then◌else◌, ℤ, pos, negsuc, pos_part,
  neg_part,
}
use jack_example_tools.Memops.Float.{Floats, int_bits, int_value, minus}
use jack_example_tools.Memops.Range.{FloatLaws, minus_parts}

abbrev le : ℤ → ℤ → Bool
le a b = leb (pos_part a + neg_part b) (pos_part b + neg_part a)

-- The integer `a - b` of two numbers.
abbrev difference : ℕ → ℕ → ℤ
difference a b = if leb b a then pos (a - b) else minus (b - a)

abbrev add : ℤ → ℤ → ℤ
add a b = difference (pos_part a + pos_part b) (neg_part a + neg_part b)

abbrev sub : ℤ → ℤ → ℤ
sub a b = difference (pos_part a + neg_part b) (neg_part a + pos_part b)

abbrev mul : ℤ → ℤ → ℤ
mul a b =
    difference (pos_part a * pos_part b + neg_part a * neg_part b)
      (pos_part a * neg_part b + neg_part a * pos_part b)

-- Towards 0; a divisor that is not positive is not used.
abbrev div : ℤ → ℤ → ℤ
div (pos a) b = pos (a / pos_part b)
div (negsuc a) b = minus (suc a / pos_part b)

abbrev pub integers : Floats
integers = record {
  F = ℤ;
  D = ℤ;
  le = le;
  lt = λ a b. not (le b a);
  add = add;
  sub = sub;
  mul = mul;
  div = div;
  of_int = λ z. z;
  literal = λ n digits. pos (n / 10 ^ digits);
  lrintf = λ z. z;
  truncate = λ z. z;
  vmin = λ a b. if le a b then a else b;
  vmax = λ a b. if le a b then b else a;
  widen = λ z. z;
  narrow = λ z. z;
  mul_d = mul;
  div_d = div;
  of_int_d = λ z. z;
  lrint = λ z. z;
  fmin = λ a b. if le a b then a else b;
  fmax = λ a b. if le a b then b else a;
  add_d = add;
  sub_d = sub;
  truncate_d = λ z. z;
  bits = int_bits;
  of_bits = int_value;
}

le_refl : (a : ℤ) → le a a ≡ true
le_refl a = le→leb (pos_part a + neg_part a) (pos_part a + neg_part a) (omega arith)

le_total : (a b : ℤ) → le a b ≡ false → le b a ≡ true
le_total a b h = le→leb _ _ (omega (arith, leb→lt _ _ h))

same : (a b : ℤ) → le a b ≡ true → le b a ≡ true → a ≡ b
same (pos a) (pos b) h k = ap pos (omega (arith, leb→le _ _ h, leb→le _ _ k))
same (pos a) (negsuc b) h k = absurd (omega (arith, leb→le _ _ h, leb→le _ _ k))
same (negsuc a) (pos b) h k = absurd (omega (arith, leb→le _ _ h, leb→le _ _ k))
same (negsuc a) (negsuc b) h k = ap negsuc (omega (arith, leb→le _ _ h, leb→le _ _ k))

difference_zero : (a b c : ℕ) → b ≡ a → c ≡ 0 → difference b c ≡ pos a
difference_zero a b c eb ec = rw (eb, ec, le→leb 0 a (omega arith)) (ap pos (omega arith))

zero_difference : (a b c : ℕ) → b ≡ 0 → c ≡ a → difference b c ≡ minus a
zero_difference zero b c eb ec = rw (eb, ec) refl
zero_difference (suc a) b c eb ec =
    rw (eb, ec)
      (elim (Bool-cases (leb (suc a) 0)) [
        | inl small ↦ absurd (omega (arith, leb→le _ _ small))
        | inr large ↦ rw large (ap minus (let e : suc a - 0 ≡ suc a = omega arith in e))
      ])

mul_mono : (a b n : ℕ) → a ≤ b → a * n ≤ b * n
mul_mono a b n h =
    let e : b ≡ a + (b - a) = omega arith in
    let whole : (c : ℕ) → (a + c) * n ≡ a * n + c * n = λ c. grind arith in
    omega (arith, ap (λ m. m * n) e ∙ whole (b - a))

mul_pos : (a n : ℕ) → mul (pos a) (pos n) ≡ pos (a * n)
mul_pos a n = difference_zero (a * n) (a * n + 0 * 0) (a * 0 + 0 * n) (omega arith) (omega arith)

mul_minus : (a n : ℕ) → mul (negsuc a) (pos n) ≡ minus (suc a * n)
mul_minus a n =
    zero_difference (suc a * n) (0 * n + suc a * 0) (0 * 0 + suc a * n) (omega arith) (omega arith)

mul_le : (a b : ℤ) (n : ℕ) → le a b ≡ true → le (mul a (pos n)) (mul b (pos n)) ≡ true
mul_le (pos a) (pos b) n h =
    rw (mul_pos a n, mul_pos b n)
      (le→leb _ _ (omega (arith, mul_mono a b n (omega (arith, leb→le _ _ h)))))
mul_le (pos a) (negsuc b) n h = absurd (omega (arith, leb→le _ _ h))
mul_le (negsuc a) (pos b) n h =
    rw (mul_minus a n, mul_pos b n) (le→leb _ _ (omega (arith, minus_parts (suc a * n))))
mul_le (negsuc a) (negsuc b) n h =
    rw (mul_minus a n, mul_minus b n)
      (le→leb _ _ (
        omega (
          arith,
          minus_parts (suc a * n),
          minus_parts (suc b * n),
          mul_mono (suc b) (suc a) n (omega (arith, leb→le _ _ h)),
        )))

pub laws : FloatLaws integers
laws = record {
  total = λ a b ha hb h. le_total a b h;
  lt_le = λ a b ha hb. refl;
  lrintf_same = same;
  int_number = le_refl;
  minus_one_one = refl;
  mul_le = λ a b n h1 h2 h. mul_le a b n h;
  lrintf-Within = λ a n h low high. (leb→le _ _ low, leb→le _ _ high);
  lrintf_int = λ z h. refl;
  mul_one = λ n h. mul_pos 1 n ∙ ap pos (omega arith);
  mul_minus_one = λ n h. mul_minus 0 n ∙ ap minus (omega arith);
}
