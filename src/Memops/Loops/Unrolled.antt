-- ===== src/Memops/Loops/Unrolled.antt =====
-- The loops by fours are the plain loops.
use jack_example_tools.Base.{
  ℕ, zero, suc, ◌+◌, ◌*◌, ◌/◌, ◌%◌, ◌≤◌, ◌<◌, ◌≡◌, refl, sym, ap, ap₂, ◌∙◌, inl, inr, arith, Option,
  none, some, List, [], ◌∷◌, ◌++◌, ◌>>=◌, ◌==◌, ==_iff, length, length-append, drop, Bool-cases,
  leb, leb→le, leb→lt,
}
use jack_example_tools.Bytes.{splice}
use jack_example_tools.Bytes.Laws.{memcpy_fault, length-splice}
use jack_example_tools.Memops.Loops.{put, write_loop, write_groups, write_unrolled, store_lanes}
use jack_example_tools.Memops.Loops.Strided.{suc-mul, put_lem, splice-append}

abbrev no_value {ℓ} : (B : Type ℓ) → Option B
no_value B = none

bind_none {ℓ κ} : {A : Type ℓ} {B : Type κ} (m : Option A) → (m >>= λ a. no_value B) ≡ none
bind_none none = refl
bind_none (some a) = refl

bind_some {ℓ} : {A : Type ℓ} (m : Option A) → (m >>= λ a. some a) ≡ m
bind_some none = refl
bind_some (some a) = refl

pub bind_assoc {ℓ κ ι} :
    {A : Type ℓ} {B : Type κ} {C : Type ι} (m : Option A) (f : A → Option B) (g : B → Option C)
    → ((m >>= f) >>= g) ≡ (m >>= λ a. f a >>= g)
bind_assoc none f g = refl
bind_assoc (some a) f g = refl

pub bind_congr {ℓ κ} :
    {A : Type ℓ} {B : Type κ} (m : Option A) (f g : A → Option B)
    → ((a : A) → f a ≡ g a)
    → (m >>= f) ≡ (m >>= g)
bind_congr none f g h = refl
bind_congr (some a) f g h = h a

put_fault :
    (dst : List ℕ) (at : ℕ) (xs : List ℕ) → length dst < at + length xs → put dst at xs ≡ none
unfolding put
put_fault dst at xs h = memcpy_fault dst at xs (length xs) h

-- One store of two adjoining pieces is two stores.
put-append :
    (dst : List ℕ) (at : ℕ) (xs ys : List ℕ)
    → put dst at (xs ++ ys) ≡ (put dst at xs >>= λ d. put d (at + length xs) ys)
put-append dst at xs ys = elim (Bool-cases (leb (at + length (xs ++ ys)) (length dst))) [
  | inl all ↦
      let h = leb→le _ _ all in
      let first : at + length xs ≤ length dst = omega (arith, h, length-append xs ys) in
      let len = length-splice dst at xs first in
      put_lem dst at (xs ++ ys) h
      ∙ ap some (splice-append dst at xs ys h)
      ∙ sym (
          rw (put_lem dst at xs first) (
            put_lem (splice dst at xs) (at + length xs) ys
              (omega (arith, h, len, length-append xs ys))))
  | inr over ↦
      let h = leb→lt _ _ over in
      put_fault dst at (xs ++ ys) h
      ∙ sym (elim (Bool-cases (leb (at + length xs) (length dst))) [
        | inl fits ↦
            let first = leb→le _ _ fits in
            rw (put_lem dst at xs first) (
              put_fault (splice dst at xs) (at + length xs) ys
                (omega (arith, h, length-splice dst at xs first, length-append xs ys)))
        | inr not_first ↦ rw (put_fault dst at xs (leb→lt _ _ not_first)) refl
      ])
]

module _ {F : Type 0} (conv : F → List ℕ) (skip : ℕ) where
  pub write_loop-add :
      (a b : ℕ) (dst : List ℕ) (at : ℕ) (src : List F)
      → write_loop conv (a + b) dst at src skip ≡ (
          write_loop conv a dst at src skip >>= λ d.
          write_loop conv b d (at + a * skip) (drop a src) skip)
  unfolding write_loop
  write_loop-add zero b dst at src =
      ap₂ (λ n p. write_loop conv n dst p src skip) (omega arith) (omega arith)
  write_loop-add (suc a) b dst at [] = let e : suc a + b ≡ suc (a + b) = omega arith in rw e refl
  write_loop-add (suc a) b dst at (s ∷ src) =
      let e : suc a + b ≡ suc (a + b) = omega arith in
      rw e (
        bind_congr (put dst at (conv s)) _ _ (λ d.
          write_loop-add a b d (at + skip) src
          ∙ bind_congr (write_loop conv a d (at + skip) src skip) _ _ (λ t.
            ap (λ p. write_loop conv b t p (drop a src) skip) (omega (arith, suc-mul a skip))))
        ∙ sym (bind_assoc (put dst at (conv s)) _ _))

  groups-write_loop :
      (group : List ℕ → ℕ → List F → Option (List ℕ))
      → ((dst : List ℕ) (at : ℕ) (src : List F)
          → group dst at src ≡ write_loop conv 4 dst at src skip)
      → (g : ℕ) (dst : List ℕ) (at : ℕ) (src : List F)
      → write_groups group g dst at src skip ≡ write_loop conv (g * 4) dst at src skip
  unfolding write_groups
  groups-write_loop group same zero dst at src = unfold write_loop in refl
  groups-write_loop group same (suc g) dst at src =
      let e : suc g * 4 ≡ 4 + g * 4 = omega arith in
      rw (same dst at src) (
        bind_congr (write_loop conv 4 dst at src skip) _ _
          (λ d. groups-write_loop group same g d (at + 4 * skip) (drop 4 src))
        ∙ sym (ap (λ n. write_loop conv n dst at src skip) e ∙ write_loop-add 4 (g * 4) dst at src))

  -- Where the groups convert a sample as the last loop does, the whole is the plain loop.
  pub unrolled-write_loop :
      (group : List ℕ → ℕ → List F → Option (List ℕ))
      → ((dst : List ℕ) (at : ℕ) (src : List F)
          → group dst at src ≡ write_loop conv 4 dst at src skip)
      → (n : ℕ) (dst : List ℕ) (at : ℕ) (src : List F)
      → write_unrolled group conv n dst at src skip ≡ write_loop conv n dst at src skip
  unfolding write_unrolled
  unrolled-write_loop group same n dst at src =
      rw (groups-write_loop group same (n / 4) dst at src) (
        bind_congr (write_loop conv (n / 4 * 4) dst at src skip) _ _ (λ d.
          ap (λ p. write_loop conv (n % 4) d p (drop (n / 4 * 4) src) skip) (by_fours (n / 4) at))
        ∙ sym (write_loop-add (n / 4 * 4) (n % 4) dst at src)
        ∙ ap (λ m. write_loop conv m dst at src skip) (omega arith))
    where
      by_fours : (g at : ℕ) → at + g * (4 * skip) ≡ at + g * 4 * skip
      by_fours g at = grind arith

  pub lanes-write_loop :
      (size : ℕ)
      → ((s : F) → length (conv s) ≡ size)
      → (dst : List ℕ) (at : ℕ) (src : List F)
      → store_lanes size conv skip dst at src ≡ write_loop conv 4 dst at src skip
  unfolding store_lanes write_loop
  lanes-write_loop size conv_size dst at [] = refl
  lanes-write_loop size conv_size dst at (a ∷ []) = sym (bind_none (put dst at (conv a)))
  lanes-write_loop size conv_size dst at (a ∷ b ∷ []) = sym (
      bind_congr (put dst at (conv a)) _ _ (λ d. bind_none (put d (at + skip) (conv b)))
      ∙ bind_none (put dst at (conv a)))
  lanes-write_loop size conv_size dst at (a ∷ b ∷ c ∷ []) = sym (
      bind_congr (put dst at (conv a)) _ _ (λ d.
        bind_congr (put d (at + skip) (conv b)) _ _
          (λ t. bind_none (put t (at + skip + skip) (conv c)))
        ∙ bind_none (put d (at + skip) (conv b)))
      ∙ bind_none (put dst at (conv a)))
  lanes-write_loop size conv_size dst at (a ∷ b ∷ c ∷ d ∷ src) = elim (Bool-cases (skip == size)) [
    | inl adjoin ↦ rw adjoin (
        let eq : skip ≡ size = (==_iff skip size).0 adjoin in
        let next : (s : F) (d : List ℕ) (p : ℕ) (ys : List ℕ)
            → put d p (conv s ++ ys) ≡ (put d p (conv s) >>= λ t. put t (p + skip) ys) =
          λ s d p ys.
            put-append d p (conv s) ys
            ∙ bind_congr (put d p (conv s)) _ _
                (λ t. ap (λ k. put t (p + k) ys) (conv_size s ∙ sym eq)) in
        next a dst at _
        ∙ bind_congr (put dst at (conv a)) _ _ (λ t.
          next b t (at + skip) _
          ∙ bind_congr (put t (at + skip) (conv b)) _ _ (λ u.
            next c u (at + skip + skip) _
            ∙ bind_congr (put u (at + skip + skip) (conv c)) _ _
                (λ v. sym (bind_some (put v (at + skip + skip + skip) (conv d)))))))
    | inr strided ↦ rw strided refl
  ]
