-- ===== src/Base/Reads.antt =====
-- What an indexed read finds after a write, a cut or a concatenation, and equality of lists by reads.
use Prim.Native.Nat.{ℕ, zero, suc, ◌+◌, ◌-◌, ◌<◌, ◌≤◌}
use mathlib.Core.Path.{◌≡◌, refl, ap, ap₂, sym, ◌∙◌, subst}
use mathlib.Core.Logic.{◌≢◌, ◌⊎◌, inl, inr}
use mathlib.Core.List.{List, [], ◌∷◌, ◌++◌}
use mathlib.Core.Option.{none, some}
use native.Mathlib.Omega.{arith}
use jack_example_tools.Base.Lists.{All, length, get_elem?, get_or, set, take, drop}

module _ {ℓ} {A : Type ℓ} where
  pub get_elem?-set_self :
      (xs : List A) (i : ℕ) (v : A) → i < length xs → get_elem? (set xs i v) i ≡ some v
  get_elem?-set_self [] i v h = elim h [ ]
  get_elem?-set_self (x ∷ xs) zero v h = refl
  get_elem?-set_self (x ∷ xs) (suc i) v h = get_elem?-set_self xs i v (omega arith)

  pub get_elem?-set_ne :
      (xs : List A) {i j : ℕ} (v : A) → i ≢ j → get_elem? (set xs i v) j ≡ get_elem? xs j
  get_elem?-set_ne [] v h = refl
  get_elem?-set_ne (x ∷ xs) {i = zero} {j = zero} v h = absurd (h refl)
  get_elem?-set_ne (x ∷ xs) {i = zero} {j = suc j} v h = refl
  get_elem?-set_ne (x ∷ xs) {i = suc i} {j = zero} v h = refl
  get_elem?-set_ne (x ∷ xs) {i = suc i} {j = suc j} v h = get_elem?-set_ne xs v (λ e. h (ap suc e))

  pub get_elem?-none : (xs : List A) (i : ℕ) → length xs ≤ i → get_elem? xs i ≡ none
  get_elem?-none [] i h = refl
  get_elem?-none (x ∷ xs) zero h = absurd (omega arith)
  get_elem?-none (x ∷ xs) (suc i) h = get_elem?-none xs i (omega arith)

  pub get_elem?-get_or :
      (xs : List A) (i : ℕ) (d : A) → i < length xs → get_elem? xs i ≡ some (get_or xs i d)
  get_elem?-get_or [] i d h = elim h [ ]
  get_elem?-get_or (x ∷ xs) zero d h = refl
  get_elem?-get_or (x ∷ xs) (suc i) d h = get_elem?-get_or xs i d (omega arith)

  pub get_or_of :
      (xs : List A) (i : ℕ) {x : A} (d : A) → get_elem? xs i ≡ some x → get_or xs i d ≡ x
  get_or_of [] i d e = cc
  get_or_of (y ∷ xs) zero d e = cc
  get_or_of (y ∷ xs) (suc i) d e = get_or_of xs i d e

  pub get_elem?-append_left :
      (xs ys : List A) (i : ℕ) → i < length xs → get_elem? (xs ++ ys) i ≡ get_elem? xs i
  get_elem?-append_left [] ys i h = elim h [ ]
  get_elem?-append_left (x ∷ xs) ys zero h = refl
  get_elem?-append_left (x ∷ xs) ys (suc i) h = get_elem?-append_left xs ys i (omega arith)

  pub get_elem?-append_right :
      (xs ys : List A) (i : ℕ)
      → length xs ≤ i
      → get_elem? (xs ++ ys) i ≡ get_elem? ys (i - length xs)
  get_elem?-append_right [] ys i h = ap (get_elem? ys) (omega arith)
  get_elem?-append_right (x ∷ xs) ys zero h = absurd (omega arith)
  get_elem?-append_right (x ∷ xs) ys (suc i) h =
      get_elem?-append_right xs ys i (omega arith) ∙ ap (get_elem? ys) (omega arith)

  pub get_elem?-take :
      (n : ℕ) (xs : List A) (i : ℕ) → i < n → get_elem? (take n xs) i ≡ get_elem? xs i
  get_elem?-take zero xs i h = elim h [ ]
  get_elem?-take (suc n) [] i h = refl
  get_elem?-take (suc n) (x ∷ xs) zero h = refl
  get_elem?-take (suc n) (x ∷ xs) (suc i) h = get_elem?-take n xs i (omega arith)

  pub get_elem?-drop :
      (n : ℕ) (xs : List A) (i : ℕ) → get_elem? (drop n xs) i ≡ get_elem? xs (n + i)
  get_elem?-drop zero xs i = ap (get_elem? xs) (omega arith)
  get_elem?-drop (suc n) [] i = refl
  get_elem?-drop (suc n) (x ∷ xs) i =
      get_elem?-drop n xs i
      ∙ sym (ap (get_elem? (x ∷ xs)) (let e : suc n + i ≡ suc (n + i) = omega arith in e))

  pub some_inj : {x y : A} → some x ≡ some y → x ≡ y
  some_inj e = cc

  pub none-ne-some : {x : A} → none ≡ some x → ⊥
  none-ne-some e = cc

  -- What stands in a list after a write: the new value at its place, or an old one elsewhere.
  pub get_elem?-set_cases :
      (xs : List A) (i j : ℕ) (v : A) {x : A}
      → get_elem? (set xs i v) j ≡ some x
      → ((i ≡ j) × (x ≡ v)) ⊎ ((i ≢ j) × (get_elem? xs j ≡ some x))
  get_elem?-set_cases [] i j v e = cc
  get_elem?-set_cases (y ∷ ys) zero zero v e = inl (refl, some_inj (sym e))
  get_elem?-set_cases (y ∷ ys) zero (suc j) v e = inr (omega arith, e)
  get_elem?-set_cases (y ∷ ys) (suc i) zero v e = inr (omega arith, e)
  get_elem?-set_cases (y ∷ ys) (suc i) (suc j) v e = elim (get_elem?-set_cases ys i j v e) [
    | inl (p, q) ↦ inl (ap suc p, q)
    | inr (n, q) ↦ inr (omega arith, q)
  ]

  pub lt_of_get_elem? : (xs : List A) (i : ℕ) {x : A} → get_elem? xs i ≡ some x → i < length xs
  lt_of_get_elem? [] i e = cc
  lt_of_get_elem? (y ∷ ys) zero e = omega arith
  lt_of_get_elem? (y ∷ ys) (suc i) e = omega (arith, lt_of_get_elem? ys i e)

  pub All_at {κ} :
      (P : A → Type κ) (xs : List A) (i : ℕ) {x : A} → All P xs → get_elem? xs i ≡ some x → P x
  All_at P [] i h e = cc
  All_at P (y ∷ ys) zero (h, hs) e = subst P (some_inj e) h
  All_at P (y ∷ ys) (suc i) (h, hs) e = All_at P ys i hs e

  -- Lists of one length with the same reads are equal.
  pub get_elem?_ext :
      (xs ys : List A)
      → length xs ≡ length ys
      → ((i : ℕ) → i < length xs → get_elem? xs i ≡ get_elem? ys i)
      → xs ≡ ys
  get_elem?_ext [] [] e same = refl
  get_elem?_ext [] (y ∷ ys) e same = absurd (omega arith)
  get_elem?_ext (x ∷ xs) [] e same = absurd (omega arith)
  get_elem?_ext (x ∷ xs) (y ∷ ys) e same =
      ap₂ ◌∷◌ (some_inj (same 0 (omega arith)))
        (get_elem?_ext xs ys (omega arith) (λ i h. same (suc i) (omega arith)))
