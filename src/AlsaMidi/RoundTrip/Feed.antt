-- ===== src/AlsaMidi/RoundTrip/Feed.antt =====
-- Data bytes that go to a message under way, up to its last byte.
use jack_example_tools.Base.{
  ℕ, zero, suc, ◌+◌, ◌/◌, ◌≤◌, ◌<◌, ◌≡◌, refl, sym, ap, ◌∙◌, inl, inr, arith, true, false, some,
  List, [], ◌∷◌, ◌++◌, append-nil, append_assoc, ◌==◌, leb, ltb, Bool-cases, length, length-append,
  length-set, get_or, set, take, ◌>>=◌, Option, none, ==_iff,
}
use jack_example_tools.Netjack.Midi.{MidiEvent}
use jack_example_tools.AlsaMidi.Unpack.{
  Unpack, take_byte, keep_status, finish, unpack_byte, midi_unpack_buf,
}
use jack_example_tools.AlsaMidi.Unpack.Taken.{push_lem}
use jack_example_tools.AlsaMidi.Unpack.Safe.{message, write_status, finish_full, finish_part}
use jack_example_tools.AlsaMidi.RoundTrip.{note_off, Data}

-- The message under way has the bytes `acc`, and wants `need` of them.
pub record Mid (size need : ℕ) (acc : List ℕ) (u : Unpack) : Type 0 where
  pub bytes : take u.pos u.msg_data ≡ acc
  pub pos_eq : u.pos ≡ length acc
  pub need_eq : u.need ≡ need
  pub size_eq : u.size ≡ size
  pub data_eq : length u.msg_data ≡ size
  pub three : 3 ≤ size
  pub need_size : need ≤ size

get_or-take : (n : ℕ) (xs : List ℕ) (i : ℕ) → i < n → get_or (take n xs) i 0 ≡ get_or xs i 0
get_or-take zero xs i h = elim h [ ]
get_or-take (suc n) [] i h = refl
get_or-take (suc n) (x ∷ xs) zero h = refl
get_or-take (suc n) (x ∷ xs) (suc i) h = get_or-take n xs i (omega arith)

take-set : (xs : List ℕ) (i b : ℕ) → i < length xs → take (suc i) (set xs i b) ≡ take i xs ++ b ∷ []
take-set [] i b h = elim h [ ]
take-set (x ∷ xs) zero b h = refl
take-set (x ∷ xs) (suc i) b h = ap (◌∷◌ x) (take-set xs i b (omega arith))

abbrev pub pushed : Unpack → ℕ → Unpack
pushed u b = record u { pos = suc u.pos; msg_data = set u.msg_data u.pos b }

pub pushed-Mid :
    {size need : ℕ} {acc : List ℕ} {u : Unpack} (b : ℕ)
    → Mid size need acc u
    → length acc < size
    → Mid size need (acc ++ b ∷ []) (pushed u b)
pushed-Mid {acc = acc} {u = u} b m h = record {
  bytes =
      take-set u.msg_data u.pos b (omega (arith, m.pos_eq, m.data_eq))
      ∙ ap (λ t. t ++ b ∷ []) m.bytes;
  pos_eq = omega (arith, m.pos_eq, length-append acc (b ∷ []));
  need_eq = m.need_eq;
  size_eq = m.size_eq;
  data_eq = length-set u.msg_data u.pos b ∙ m.data_eq;
  three = m.three;
  need_size = m.need_size;
}

same_result {ℓ κ} :
    {A : Type ℓ} {B : Type κ} (m : Option (A × List B)) → (m >>= λ r. some (r.0, [] ++ r.1)) ≡ m
same_result none = refl
same_result (some r) = refl

-- A byte that completes nothing.
pub quiet :
    (u : Unpack) (b : ℕ) (bs : List ℕ) (time : ℕ) {u' : Unpack}
    → unpack_byte u time b ≡ some (u', [])
    → midi_unpack_buf u (b ∷ bs) time ≡ midi_unpack_buf u' bs time
unfolding midi_unpack_buf
quiet u b bs time {u' = u'} ran = rw ran (same_result (midi_unpack_buf u' bs time))

-- A byte that completes a message, and is the last one.
pub last_byte :
    (u : Unpack) (b : ℕ) (time : ℕ) {u' : Unpack} {e : MidiEvent}
    → unpack_byte u time b ≡ some (u', e ∷ [])
    → midi_unpack_buf u (b ∷ []) time ≡ some (u', e ∷ [])
unfolding midi_unpack_buf
last_byte u b time ran = rw ran refl

pub data_byte :
    (u : Unpack) (time b : ℕ)
    → b < 0x80
    → u.pos < u.size
    → u.size ≤ length u.msg_data
    → unpack_byte u time b ≡ finish (pushed u b) time
unfolding unpack_byte take_byte
data_byte u time b low h k =
    let small : ltb b 0x80 ≡ true = ground arith in
    let other : leb 0xF8 b ≡ false = ground arith in rw (other, small, push_lem u b h k) refl

-- What is written when the message is complete.
pub message-Mid :
    {size need : ℕ} {s : ℕ} {acc : List ℕ} {u : Unpack}
    → Mid size need (s ∷ acc) u
    → (s / 16 ≡ 9 → 2 ≤ length acc)
    → (get_or u.msg_data 0 0 ≡ s) × (message u s ≡ note_off (s ∷ acc))
message-Mid {s = s} {acc = acc} {u = u} m note =
    let read : (i : ℕ) → i < u.pos → get_or u.msg_data i 0 ≡ get_or (s ∷ acc) i 0 =
      λ i h. sym (get_or-take u.pos u.msg_data i h) ∙ ap (λ t. get_or t i 0) m.bytes in
    (
      read 0 (omega (arith, m.pos_eq)),
      elim (Bool-cases (s / 16 == 9)) [
        | inl on ↦
            let long = note ((==_iff (s / 16) 9).0 on) in
            rw
              (
                read 1 (omega (arith, m.pos_eq, long)),
                read 2 (omega (arith, m.pos_eq, long)),
                m.bytes,
              )
              refl
        | inr other ↦ rw (other, m.bytes) refl
      ],
    )

-- Data bytes before the last one only add to the message.
pub feed :
    (time : ℕ) {size need : ℕ} (s : ℕ) (acc xs ys : List ℕ) (u : Unpack)
    → Mid size need (s ∷ acc) u
    → Data xs
    → 1 + length acc + length xs < need
    → (u' : Unpack) × (midi_unpack_buf u (xs ++ ys) time ≡ midi_unpack_buf u' ys time)
      × Mid size need (s ∷ acc ++ xs) u'
feed time s acc [] ys u m ok h = (u, refl, rw (append-nil acc) m)
feed time s acc (x ∷ xs) ys u m (low, ok) h =
    let (u', ran, m') =
      feed time s (acc ++ x ∷ []) xs ys (pushed u x) (pushed-Mid x m (omega (arith, m.need_size)))
        ok (omega (arith, length-append acc (x ∷ []))) in
    let more =
      data_byte u time x low (omega (arith, m.pos_eq, m.size_eq, m.need_size))
        (omega (arith, m.size_eq, m.data_eq))
      ∙ finish_part (pushed u x) time (omega (arith, m.pos_eq, m.need_eq)) in
    (u', quiet u x (xs ++ ys) time more ∙ ran, rw (append_assoc acc (x ∷ []) xs) at m')

-- A message with all its bytes is written.
pub complete :
    (time : ℕ) {size need : ℕ} (s : ℕ) (acc : List ℕ) (u : Unpack)
    → Mid size need (s ∷ acc) u
    → 1 + length acc ≡ need
    → 0x80 ≤ s
    → (s / 16 ≡ 9 → 2 ≤ length acc)
    → finish u time
      ≡ some (keep_status u s, record { time = time; buffer = note_off (s ∷ acc) } ∷ [])
complete time s acc u m full status note =
    let (first, same) = message-Mid m note in
    finish_full u time s (omega (arith, m.pos_eq, m.need_eq)) (omega (arith, m.data_eq, m.three))
      first
      (write_status u time s (omega (arith, m.pos_eq, m.data_eq, m.need_size))
        (omega (arith, m.data_eq, m.three)) status)
    ∙ ap (λ b. some (keep_status u s, record { time = time; buffer = b } ∷ [])) same

-- The data bytes of a message, the last one among them.
pub body :
    (time : ℕ) {size need : ℕ} (s : ℕ) (acc xs : List ℕ) (x : ℕ) (u : Unpack)
    → Mid size need (s ∷ acc) u
    → Data xs
    → x < 0x80
    → 2 + length acc + length xs ≡ need
    → 0x80 ≤ s
    → (s / 16 ≡ 9 → need ≡ 3)
    → (t : Unpack) × (midi_unpack_buf u (xs ++ x ∷ []) time
        ≡ some (
          keep_status t s,
          record { time = time; buffer = note_off (s ∷ acc ++ xs ++ x ∷ []) } ∷ [],
        ))
      × Mid size need (s ∷ acc ++ xs ++ x ∷ []) t
body time {size = size} {need = need} s acc xs x u m ok low full status note =
    let (t, ran, m') = feed time s acc xs (x ∷ []) u m ok (omega arith) in
    let last : Mid size need ((s ∷ acc ++ xs) ++ x ∷ []) (pushed t x) =
      pushed-Mid x m' (omega (arith, length-append acc xs, m.need_size)) in
    let len : length ((acc ++ xs) ++ x ∷ []) ≡ length acc + length xs + 1 =
      length-append (acc ++ xs) (x ∷ []) ∙ ap (λ n. n + 1) (length-append acc xs) in
    (
      pushed t x,
      ran
          ∙ last_byte t x time (
              data_byte t time x low
                (omega (arith, length-append acc xs, m'.pos_eq, m'.size_eq, m'.need_size))
                (omega (arith, m'.size_eq, m'.data_eq))
              ∙ complete time s ((acc ++ xs) ++ x ∷ []) (pushed t x) last (omega (arith, len))
                  status (λ c. omega (arith, len, note c))),
      last,
    )
