-- ===== src/AlsaMidi/RoundTrip/Sync.antt =====
-- The state that the unpacker shares with the packer, and what a status byte makes of it.
use jack_example_tools.Base.{
  ℕ, zero, suc, ◌+◌, ◌-◌, ◌/◌, ◌≤◌, ◌<◌, ◌≡◌, ◌≢◌, refl, sym, ap, ◌∙◌, arith, true, false, some,
  List, [], ◌∷◌, ◌++◌, ◌==◌, ◌&&◌, leb, ltb, length, length-set, get_or, set, take,
}
use jack_example_tools.AlsaMidi.Unpack.{
  Unpack, take_byte, system_need, keep_status, finish, unpack_byte, midi_voice_len,
}
use jack_example_tools.AlsaMidi.Unpack.Taken.{IsUnpack, start_lem, push_lem}
use jack_example_tools.AlsaMidi.Unpack.Safe.{finish_part}
use jack_example_tools.AlsaMidi.Pack.{Pack}
use jack_example_tools.AlsaMidi.RoundTrip.{note_off}
use jack_example_tools.AlsaMidi.RoundTrip.Feed.{Mid, pushed-Mid}

abbrev pub voice_len : ℕ → ℕ
voice_len s = get_or midi_voice_len ((s - 0x80) / 16) 0

-- The unpacker keeps the running status of the packer.
pub record Sync (size : ℕ) (p : Pack) (u : Unpack) : Type 0 where
  pub unpack : IsUnpack u
  pub size_eq : u.size ≡ size
  pub status :
      p.running_status ≢ 0
      → (0x80 ≤ p.running_status)
        × (p.running_status < 0xF0)
        × Mid size (voice_len p.running_status) (p.running_status ∷ []) u

pub Mid-IsUnpack :
    {size need : ℕ} {acc : List ℕ} {u : Unpack}
    → Mid size need acc u
    → length acc < need
    → 2 ≤ need
    → IsUnpack u
Mid-IsUnpack m h two = record {
  before = omega (arith, m.pos_eq, m.need_eq);
  two = omega (arith, m.need_eq);
  need_size = omega (arith, m.need_eq, m.size_eq, m.need_size);
  three = omega (arith, m.size_eq, m.three);
  size_eq = omega (arith, m.size_eq, m.data_eq);
}

take-set_zero : (xs : List ℕ) (b : ℕ) → 0 < length xs → take 1 (set xs 0 b) ≡ b ∷ []
take-set_zero [] b h = elim h [ ]
take-set_zero (x ∷ xs) b h = refl

abbrev pub started : Unpack → ℕ → ℕ → Unpack
started u s need = record u { pos = 1; need = need; msg_data = set u.msg_data 0 s }

pub started-Mid :
    {size : ℕ} {u : Unpack} (s need : ℕ)
    → IsUnpack u
    → u.size ≡ size
    → need ≤ size
    → Mid size need (s ∷ []) (started u s need)
started-Mid {u = u} s need v same most = record {
  bytes = take-set_zero u.msg_data s (omega (arith, v.three, v.size_eq));
  pos_eq = refl;
  need_eq = refl;
  size_eq = same;
  data_eq = length-set u.msg_data 0 s ∙ sym v.size_eq ∙ same;
  three = omega (arith, v.three);
  need_size = most;
}

pub voice_byte :
    (u : Unpack) (time s : ℕ)
    → IsUnpack u
    → 0x80 ≤ s
    → s < 0xF0
    → unpack_byte u time s ≡ finish (started u s (voice_len s)) time
unfolding unpack_byte take_byte
voice_byte u time s v low high =
    let a : leb 0xF8 s ≡ false = ground arith in
    let b : ltb s 0x80 ≡ false = ground arith in
    let c : ltb s 0xF0 ≡ true = ground arith in
    rw (a, b, c, start_lem u s (voice_len s) (omega (arith, v.three, v.size_eq))) refl

pub system_byte :
    (u : Unpack) (time s : ℕ)
    → IsUnpack u
    → 0xF0 ≤ s
    → s < 0xF7
    → unpack_byte u time s ≡ finish (started u s (system_need u s)) time
unfolding unpack_byte take_byte
system_byte u time s v low high =
    let a : leb 0xF8 s ≡ false = ground arith in
    let b : ltb s 0x80 ≡ false = ground arith in
    let c : ltb s 0xF0 ≡ false = ground arith in
    let d : (s == 0xF7) ≡ false = ground arith in
    rw (a, b, c, d, start_lem u s (system_need u s) (omega (arith, v.three, v.size_eq))) refl

pub realtime_lem :
    (u : Unpack) (time b : ℕ)
    → IsUnpack u
    → 0xF8 ≤ b
    → unpack_byte u time b ≡ some (u, record { time = time; buffer = note_off (b ∷ []) } ∷ [])
unfolding unpack_byte
realtime_lem u time b v h =
    let real : leb 0xF8 b ≡ true = ground arith in
    let other : (b / 16 == 9) ≡ false = ground arith in
    rw (real, other, finish_part u time v.before) refl

-- After a complete message.
first_byte : (n : ℕ) (xs acc : List ℕ) (s : ℕ) → take n xs ≡ s ∷ acc → take 1 xs ≡ s ∷ []
first_byte zero xs acc s e = cc
first_byte (suc n) [] acc s e = cc
first_byte (suc n) (x ∷ xs) acc s e = ap (λ t. get_or t 0 0 ∷ []) e

pub keep-voice :
    {size need : ℕ} (s : ℕ) {acc : List ℕ} {t : Unpack}
    → Mid size need (s ∷ acc) t
    → 0x80 ≤ s
    → s < 0xF0
    → Mid size need (s ∷ []) (keep_status t s)
unfolding keep_status
keep-voice s {acc = acc} {t = t} m low high =
    let voice : (leb 0x80 s && ltb s 0xF0) ≡ true = ground arith in
    rw voice (record {
      bytes = first_byte t.pos t.msg_data acc s m.bytes;
      pos_eq = refl;
      need_eq = m.need_eq;
      size_eq = m.size_eq;
      data_eq = m.data_eq;
      three = m.three;
      need_size = m.need_size;
    })

pub keep-system :
    {size need : ℕ} (s : ℕ) {acc : List ℕ} {t : Unpack}
    → Mid size need acc t
    → 0xF0 ≤ s
    → IsUnpack (keep_status t s) × ((keep_status t s).size ≡ size)
unfolding keep_status
keep-system s {t = t} m low =
    let other : (leb 0x80 s && ltb s 0xF0) ≡ false = ground arith in
    rw other (
      record {
        before = omega (arith, m.size_eq, m.three);
        two = omega (arith, m.size_eq, m.three);
        need_size = omega arith;
        three = omega (arith, m.size_eq, m.three);
        size_eq = omega (arith, m.size_eq, m.data_eq);
      },
      m.size_eq,
    )

-- The end of a system exclusive message.
abbrev pub closed : Unpack → Unpack
closed t = record t { pos = suc t.pos; need = suc t.pos; msg_data = set t.msg_data t.pos 0xF7 }

pub with_need :
    {size need : ℕ} {acc : List ℕ} {t : Unpack}
    → Mid size need acc t
    → 1 + length acc ≤ size
    → Mid size (suc t.pos) (acc ++ 0xF7 ∷ []) (closed t)
with_need {t = t} m h =
    let p = pushed-Mid 0xF7 m (omega arith) in
    record {
      bytes = p.bytes;
      pos_eq = p.pos_eq;
      need_eq = refl;
      size_eq = p.size_eq;
      data_eq = p.data_eq;
      three = p.three;
      need_size = omega (arith, m.pos_eq);
    }

pub end_byte :
    (t : Unpack) (time : ℕ)
    → t.pos < t.size
    → t.size ≤ length t.msg_data
    → unpack_byte t time 0xF7 ≡ finish (closed t) time
unfolding unpack_byte take_byte
end_byte t time h k = rw (push_lem t 0xF7 h k) refl

pub exclusive_byte :
    (u : Unpack) (time : ℕ) {size : ℕ}
    → IsUnpack u
    → u.size ≡ size
    → unpack_byte u time 0xF0 ≡ finish (started u 0xF0 size) time
unfolding system_need
exclusive_byte u time v same =
    system_byte u time 0xF0 v (omega arith) (omega arith)
    ∙ ap (λ n. finish (started u 0xF0 n) time) same
