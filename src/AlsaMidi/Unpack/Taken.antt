-- ===== src/AlsaMidi/Unpack/Taken.antt =====
-- What one byte does to the message under way, in tools/alsa_midi/midi_unpack.h.
use jack_example_tools.Base.{
  ℕ, zero, suc, ◌-◌, ◌/◌, ◌≤◌, ◌<◌, ◌≡◌, refl, inl, inr, arith, some, List, [], ◌∷◌, ◌==◌, ltb,
  Bool-cases, if◌then◌else◌, sym, ◌∙◌, length, length-set, get_or, set,
}
use jack_example_tools.Bytes.{store}
use jack_example_tools.AlsaMidi.Unpack.{
  Unpack, push, start, system_need, take_byte, midi_voice_len, midi_system_len,
}

-- Between two bytes a message is never complete.
pub record IsUnpack (u : Unpack) : Type 0 where
  pub before : u.pos < u.need
  pub two : 2 ≤ u.need
  pub need_size : u.need ≤ u.size
  pub three : 3 ≤ u.size
  pub size_eq : u.size ≡ length u.msg_data

-- After a byte is taken: only a system message takes a single byte.
pub record Taken (u : Unpack) : Type 0 where
  pub some_byte : 1 ≤ u.pos
  pub within : u.pos ≤ u.need
  pub need_size : u.need ≤ u.size
  pub three : 3 ≤ u.size
  pub size_eq : u.size ≡ length u.msg_data
  pub single : u.need < 2 → 0xF0 ≤ get_or u.msg_data 0 0

get_or-set_zero : (xs : List ℕ) (b : ℕ) → 0 < length xs → get_or (set xs 0 b) 0 0 ≡ b
get_or-set_zero [] b h = elim h [ ]
get_or-set_zero (x ∷ xs) b h = refl

get_or-set-suc : (xs : List ℕ) (i b : ℕ) → get_or (set xs (suc i) b) 0 0 ≡ get_or xs 0 0
get_or-set-suc [] i b = refl
get_or-set-suc (x ∷ xs) i b = refl

pub push_lem :
    (u : Unpack) (b : ℕ)
    → u.pos < u.size
    → u.size ≤ length u.msg_data
    → push u b ≡ some (record u { pos = suc u.pos; msg_data = set u.msg_data u.pos b })
unfolding push store
push_lem u b h k = ground arith

pub start_lem :
    (u : Unpack) (b need : ℕ)
    → 0 < length u.msg_data
    → start u b need ≡ some (record u { pos = 1; need = need; msg_data = set u.msg_data 0 b })
unfolding start store
start_lem u b need h = ground arith

-- The lengths in the tables.
pub voice_need_bounds :
    (b : ℕ)
    → 0x80 ≤ b
    → b < 0xF0
    → (2 ≤ get_or midi_voice_len ((b - 0x80) / 16) 0)
      × (get_or midi_voice_len ((b - 0x80) / 16) 0 ≤ 3)
voice_need_bounds b l h = go ((b - 0x80) / 16) (omega arith)
  where
    go : (d : ℕ) → d < 7 → (2 ≤ get_or midi_voice_len d 0) × (get_or midi_voice_len d 0 ≤ 3)
    go zero h = omega arith
    go (suc zero) h = omega arith
    go (suc (suc zero)) h = omega arith
    go (suc (suc (suc zero))) h = omega arith
    go (suc (suc (suc (suc zero)))) h = omega arith
    go (suc (suc (suc (suc (suc zero))))) h = omega arith
    go (suc (suc (suc (suc (suc (suc zero)))))) h = omega arith
    go (suc (suc (suc (suc (suc (suc (suc d))))))) h = absurd (omega arith)

pub system_need_bounds :
    (u : Unpack) (b : ℕ)
    → 3 ≤ u.size
    → 0xF0 ≤ b
    → b < 0xF7
    → (1 ≤ system_need u b) × (system_need u b ≤ u.size)
unfolding system_need
system_need_bounds u b s l h = go (b - 0xF0) (omega arith)
  where
    go :
        (d : ℕ)
        → d < 7
        → let need = get_or midi_system_len d 0 in
          let r = if need == 0 then u.size else need in (1 ≤ r) × (r ≤ u.size)
    go zero h = omega arith
    go (suc zero) h = omega arith
    go (suc (suc zero)) h = omega arith
    go (suc (suc (suc zero))) h = omega arith
    go (suc (suc (suc (suc zero)))) h = omega arith
    go (suc (suc (suc (suc (suc zero))))) h = omega arith
    go (suc (suc (suc (suc (suc (suc zero)))))) h = omega arith
    go (suc (suc (suc (suc (suc (suc (suc d))))))) h = absurd (omega arith)

push-Taken :
    (u : Unpack) (b need : ℕ)
    → IsUnpack u
    → suc u.pos ≤ need
    → need ≤ u.size
    → (need < 2 → 0xF0 ≤ b)
    → Taken (record u { pos = suc u.pos; need = need; msg_data = set u.msg_data u.pos b })
push-Taken u b need v h k single = record {
  some_byte = omega arith;
  within = h;
  need_size = k;
  three = v.three;
  size_eq = v.size_eq ∙ sym (length-set u.msg_data u.pos b);
  single = λ low.
      let zero_pos : u.pos ≡ 0 = omega arith in
      rw (zero_pos, get_or-set_zero u.msg_data b (omega (arith, v.size_eq, v.three))) (single low);
}

start-Taken :
    (u : Unpack) (b need : ℕ)
    → IsUnpack u
    → 1 ≤ need
    → need ≤ u.size
    → (need < 2 → 0xF0 ≤ b)
    → Taken (record u { pos = 1; need = need; msg_data = set u.msg_data 0 b })
start-Taken u b need v h k single = record {
  some_byte = omega arith;
  within = h;
  need_size = k;
  three = v.three;
  size_eq = v.size_eq ∙ sym (length-set u.msg_data 0 b);
  single =
      λ low. rw (get_or-set_zero u.msg_data b (omega (arith, v.size_eq, v.three))) (single low);
}

never : (n b : ℕ) → 2 ≤ n → n < 2 → 0xF0 ≤ b
never n b h k = omega arith

one_le : (n : ℕ) → 2 ≤ n → 1 ≤ n
one_le n h = omega arith

three_le : (n : ℕ) {m : ℕ} → n ≤ 3 → 3 ≤ m → n ≤ m
three_le n h k = omega arith

pub take_byte-Taken :
    (u : Unpack) (b : ℕ)
    → IsUnpack u
    → b < 0xF8
    → (u' : Unpack) × (take_byte u b ≡ some u') × Taken u' × (u'.size ≡ u.size)
unfolding take_byte
take_byte-Taken u b v h = elim (Bool-cases (ltb b 0x80)) [
  | inl low ↦ (
    _,
    rw low (push_lem u b (omega (arith, v.before, v.need_size)) (omega (arith, v.size_eq))),
    push-Taken u b u.need v v.before v.need_size (λ c. omega (arith, v.two)),
    refl,
  )
  | inr high ↦ elim (Bool-cases (ltb b 0xF0)) [
    | inl voice ↦
        let (two, three) = voice_need_bounds b (ground arith) (ground arith) in
        (
          _,
          rw (high, voice) (start_lem u b _ (omega (arith, v.three, v.size_eq))),
          start-Taken u b _ v (one_le _ two) (three_le _ three v.three) (never _ b two),
          refl,
        )
    | inr system ↦ elim (Bool-cases (b == 0xF7)) [
      | inl end ↦ (
        _,
        rw
            (
              high,
              system,
              end,
              push_lem u b (omega (arith, v.before, v.need_size)) (omega (arith, v.size_eq)),
            )
            refl,
        push-Taken u b (suc u.pos) v (omega arith) (omega (arith, v.before, v.need_size))
            (λ c. ground arith),
        refl,
      )
      | inr other ↦
          let (one, most) = system_need_bounds u b v.three (ground arith) (ground arith) in
          (
            _,
            rw (high, system, other) (start_lem u b _ (omega (arith, v.three, v.size_eq))),
            start-Taken u b _ v one most (λ c. ground arith),
            refl,
          )
    ]
  ]
]
