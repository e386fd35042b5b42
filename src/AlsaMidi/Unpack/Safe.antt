-- ===== src/AlsaMidi/Unpack/Safe.antt =====
-- The unpacking of any bytes: no assertion fails, no access leaves the array, and each event begins
-- with a status byte.
use jack_example_tools.Base.{
  ℕ, zero, suc, ◌+◌, ◌/◌, ◌%◌, ◌≤◌, ◌<◌, ◌≡◌, refl, inl, inr, arith, Bool, true, false, some, List,
  [], ◌∷◌, ◌++◌, ◌==◌, ◌&&◌, ltb, leb, leb→le, leb→lt, Bool-cases, if◌then◌else◌, ◌∙◌, length,
  length-take, get_or, take, All, get_elem?-get_or, ==_iff,
}
use jack_example_tools.Netjack.Midi.{MidiEvent, slice}
use jack_example_tools.AlsaMidi.Unpack.{
  Unpack, write_message, keep_status, finish, unpack_byte, midi_unpack_buf,
}
use jack_example_tools.AlsaMidi.Unpack.Taken.{IsUnpack, Taken, take_byte-Taken}

-- The event begins with a status byte and is no longer than the array.
abbrev pub HasStatus : ℕ → MidiEvent → Type 0
HasStatus size e = (0x80 ≤ get_or e.buffer 0 0) × (1 ≤ length e.buffer) × (length e.buffer ≤ size)

get_or-take_zero : (n : ℕ) (xs : List ℕ) → get_or (take (suc n) xs) 0 0 ≡ get_or xs 0 0
get_or-take_zero n [] = refl
get_or-take_zero n (x ∷ xs) = refl

taken_first : (n : ℕ) (xs : List ℕ) → 1 ≤ n → get_or (take n xs) 0 0 ≡ get_or xs 0 0
taken_first zero xs h = elim h [ ]
taken_first (suc n) xs h = get_or-take_zero n xs

-- The bytes of the event for the message in the array.
abbrev pub message : Unpack → ℕ → List ℕ
message u first =
    if (first / 16 == 9) && (get_or u.msg_data 2 0 == 0)
    then (0x80 + first % 16) ∷ get_or u.msg_data 1 0 ∷ 0x40 ∷ []
    else take u.pos u.msg_data

if_some {ℓ} :
    {A : Type ℓ} (b : Bool) (x y : A) → (if b then some x else some y) ≡ some (if b then x else y)
if_some true x y = refl
if_some false x y = refl

slice_whole : (n : ℕ) (xs : List ℕ) → n ≤ length xs → slice xs 0 n ≡ some (take n xs)
unfolding slice
slice_whole n xs h = ground arith

pub write_status :
    (u : Unpack) (time first : ℕ)
    → u.pos ≤ length u.msg_data
    → 3 ≤ length u.msg_data
    → 0x80 ≤ first
    → write_message u time first ≡ some (record { time = time; buffer = message u first } ∷ [])
unfolding write_message
write_status u time first fits three status =
    let test : leb 0x80 first ≡ true = ground arith in
    rw
      (
        test,
        get_elem?-get_or u.msg_data 1 0 (omega arith),
        get_elem?-get_or u.msg_data 2 0 three,
        slice_whole u.pos u.msg_data fits,
      )
      (elim (Bool-cases ((first / 16 == 9) && (get_or u.msg_data 2 0 == 0))) [
        | inl off ↦ rw off refl
        | inr on ↦ rw on refl
      ])

message-HasStatus :
    (u : Unpack) (time : ℕ)
    → Taken u
    → 0x80 ≤ get_or u.msg_data 0 0
    → HasStatus u.size (record { time = time; buffer = message u (get_or u.msg_data 0 0) })
message-HasStatus u time v h =
    elim (Bool-cases ((get_or u.msg_data 0 0 / 16 == 9) && (get_or u.msg_data 2 0 == 0))) [
      | inl off ↦ rw off (omega arith, omega arith, v.three)
      | inr on ↦
          rw (on, taken_first u.pos u.msg_data v.some_byte, length-take u.pos u.msg_data)
            (
              h,
              omega (arith, v.some_byte, v.size_eq, v.three),
              omega (arith, v.within, v.need_size),
            )
    ]

write_none : (u : Unpack) (time first : ℕ) → first < 0x80 → write_message u time first ≡ some []
unfolding write_message
write_none u time first h = ground arith

write_message-HasStatus :
    (u : Unpack) (time : ℕ)
    → Taken u
    → (es : List MidiEvent) × (write_message u time (get_or u.msg_data 0 0) ≡ some es)
      × All (HasStatus u.size) es
write_message-HasStatus u time v = elim (Bool-cases (leb 0x80 (get_or u.msg_data 0 0))) [
  | inl high ↦
      let status = leb→le _ _ high in
      (
        _,
        write_status u time _ (omega (arith, v.within, v.need_size, v.size_eq))
            (omega (arith, v.three, v.size_eq)) status,
        (message-HasStatus u time v status, _),
      )
  | inr low ↦ ([], write_none u time _ (leb→lt _ _ low), _)
]

keep_status-IsUnpack :
    (u : Unpack) → Taken u → u.pos ≡ u.need → IsUnpack (keep_status u (get_or u.msg_data 0 0))
unfolding keep_status
keep_status-IsUnpack u v e =
    elim (Bool-cases (leb 0x80 (get_or u.msg_data 0 0) && ltb (get_or u.msg_data 0 0) 0xF0)) [
      | inl voice ↦
          let two : 2 ≤ u.need = ground (arith, v.single) in
          rw voice (record {
            before = two;
            two = two;
            need_size = v.need_size;
            three = v.three;
            size_eq = v.size_eq;
          })
      | inr system ↦ rw system (record {
        before = omega (arith, v.three);
        two = omega (arith, v.three);
        need_size = omega arith;
        three = v.three;
        size_eq = v.size_eq;
      })
    ]

pub finish_full :
    (u : Unpack) (time first : ℕ) {es : List MidiEvent}
    → u.pos ≡ u.need
    → 0 < length u.msg_data
    → get_or u.msg_data 0 0 ≡ first
    → write_message u time first ≡ some es
    → finish u time ≡ some (keep_status u first, es)
unfolding finish
finish_full u time first full h same e =
    rw ((==_iff u.pos u.need).1 full, get_elem?-get_or u.msg_data 0 0 h, same) (rw e refl)

pub finish_part : (u : Unpack) (time : ℕ) → u.pos < u.need → finish u time ≡ some (u, [])
unfolding finish
finish_part u time h = ground arith

keep_status-size : (u : Unpack) (first : ℕ) → (keep_status u first).size ≡ u.size
unfolding keep_status
keep_status-size u first = ground arith

finish-IsUnpack :
    (u : Unpack) (time : ℕ)
    → Taken u
    → (u' : Unpack) × (es : List MidiEvent) × (finish u time ≡ some (u', es))
      × IsUnpack u'
      × (u'.size ≡ u.size)
      × All (HasStatus u.size) es
finish-IsUnpack u time v = elim (Bool-cases (ltb u.pos u.need)) [
  | inl part ↦ (
    u,
    [],
    finish_part u time (ground arith),
    record {
      before = ground arith;
      two = ground (arith, v.some_byte);
      need_size = v.need_size;
      three = v.three;
      size_eq = v.size_eq;
    },
    refl,
    _,
  )
  | inr full ↦
      let (es, e, ok) = write_message-HasStatus u time v in
      let same : u.pos ≡ u.need = ground (arith, v.within) in
      (
        _,
        es,
        finish_full u time _ same (omega (arith, v.three, v.size_eq)) refl e,
        keep_status-IsUnpack u v same,
        keep_status-size u _,
        ok,
      )
]

unpack_byte-IsUnpack :
    (u : Unpack) (time b : ℕ)
    → IsUnpack u
    → (u' : Unpack) × (es : List MidiEvent) × (unpack_byte u time b ≡ some (u', es))
      × IsUnpack u'
      × (u'.size ≡ u.size)
      × All (HasStatus u.size) es
unfolding unpack_byte
unpack_byte-IsUnpack u time b v = elim (Bool-cases (leb 0xF8 b)) [
  | inl real ↦ (
    u,
    record { time = time; buffer = b ∷ [] } ∷ [],
    rw (real, finish_part u time v.before) refl,
    v,
    refl,
    ((ground arith, omega arith, omega (arith, v.three)), _),
  )
  | inr other ↦
      let (t, took, w, s) = take_byte-Taken u b v (ground arith) in
      let (u', es, e, v', s', ok) = finish-IsUnpack t time w in
      (u', es, rw (other, took) e, v', s' ∙ s, rw (← s) ok)
]

All-append :
    (P : MidiEvent → Type 0) (xs ys : List MidiEvent) → All P xs → All P ys → All P (xs ++ ys)
All-append P [] ys h k = k
All-append P (x ∷ xs) ys (a, h) k = (a, All-append P xs ys h k)

-- Unpacking any bytes fails no assertion and accesses nothing outside the array; the state stays
-- well formed, and each event written begins with a status byte and is no longer than the array.
pub midi_unpack_buf-IsUnpack :
    (u : Unpack) (bytes : List ℕ) (time : ℕ)
    → IsUnpack u
    → (u' : Unpack) × (es : List MidiEvent) × (midi_unpack_buf u bytes time ≡ some (u', es))
      × IsUnpack u'
      × (u'.size ≡ u.size)
      × All (HasStatus u.size) es
unfolding midi_unpack_buf
midi_unpack_buf-IsUnpack u [] time v = (u, [], refl, v, refl, _)
midi_unpack_buf-IsUnpack u (b ∷ bytes) time v =
    let (t, es, ran, w, s, ok) = unpack_byte-IsUnpack u time b v in
    let (u', es', ran', w', s', ok') = midi_unpack_buf-IsUnpack t bytes time w in
    (
      u',
      es ++ es',
      rw (ran, ran') refl,
      w',
      s' ∙ s,
      All-append (HasStatus u.size) es es' ok (rw (← s) ok'),
    )
