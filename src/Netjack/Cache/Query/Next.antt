-- ===== src/Netjack/Cache/Query/Next.antt =====
-- The next available frame is the least one at or after the frame expected.
use jack_example_tools.Base.{
  ℕ, zero, suc, ◌-◌, ◌/◌, ◌^◌, ◌≤◌, ◌<◌, ◌≡◌, inl, inr, refl, ap, arith, ◌==◌, Bool, true, false,
  not, ◌||◌, Option, none, some, List, [], ◌∷◌, All, if◌then◌else◌, ltb, get_elem?, Bool-cases,
  some_inj, All_at,
}
use jack_example_tools.Machine.{add_u32, sub_u32}
use jack_example_tools.Netjack.Packet.{CachePacket}
use jack_example_tools.Netjack.Cache.{PacketCache}
use jack_example_tools.Netjack.Cache.Query.{
  available, next_from, packet_cache_get_next_available_framecnt,
}

-- The packets that a search may choose: complete, in use, and not before the frame expected.
abbrev pub Candidate : ℕ → List CachePacket → CachePacket → Type 0
Candidate expected ps p =
    (j : ℕ) × (get_elem? ps j ≡ some p) × (available p ≡ true) × (expected ≤ p.framecnt)

abbrev pub IsFrames : List CachePacket → Type 0
IsFrames ps = All (λ p. p.framecnt < 2 ^ 32) ps

-- What the loop has found: nothing within reach, or the least offset.
data Nearest (expected best : ℕ) (retval : Bool) (ps : List CachePacket) (r : ℕ × Bool)
    : Type 0 where
  kept :
      r ≡ (best, retval)
      → ((q : CachePacket) → Candidate expected ps q → best < q.framecnt - expected)
      → Nearest expected best retval ps r
  moved :
      (p : CachePacket) (offset : ℕ)
      → r ≡ (offset, true)
      → Candidate expected ps p
      → offset ≡ p.framecnt - expected
      → offset ≤ best
      → ((q : CachePacket) → Candidate expected ps q → offset ≤ q.framecnt - expected)
      → Nearest expected best retval ps r

later :
    (expected : ℕ) (p : CachePacket) (ps : List CachePacket) {q : CachePacket}
    → Candidate expected ps q
    → Candidate expected (p ∷ ps) q
later expected p ps (j, e, a, h) = (suc j, e, a, h)

-- What holds of the first packet, if it may be chosen, and of the later ones, holds of all.
Candidate-all {κ} :
    (P : CachePacket → Type κ) (expected : ℕ) (p : CachePacket) (ps : List CachePacket)
    → (available p ≡ true → expected ≤ p.framecnt → P p)
    → ((q : CachePacket) → Candidate expected ps q → P q)
    → (q : CachePacket) → Candidate expected (p ∷ ps) q
    → P q
Candidate-all P expected p ps first rest q (zero, e, a, h) =
    let same : p ≡ q = some_inj e in rw (← same) (first (rw (← same) at a) (rw (← same) at h))
Candidate-all P expected p ps first rest q (suc j, e, a, h) = rest q (j, e, a, h)

offset_lem :
    (p : CachePacket) (expected : ℕ)
    → p.framecnt < 2 ^ 32
    → expected ≤ p.framecnt
    → sub_u32 p.framecnt expected ≡ p.framecnt - expected
offset_lem p expected h k = omega arith

module _ (expected best : ℕ) (retval : Bool) (p : CachePacket) (ps : List CachePacket)
    (small : p.framecnt < 2 ^ 32) where
  skip : Bool
  skip = not (available p) || (ltb p.framecnt expected || ltb best (sub_u32 p.framecnt expected))

  Nearest-skip :
      {r : ℕ × Bool}
      → skip ≡ true
      → Nearest expected best retval ps r
      → Nearest expected best retval (p ∷ ps) r
  unfolding skip
  Nearest-skip t (kept e far) = kept e (
      Candidate-all (λ q. best < q.framecnt - expected) expected p ps
        (λ a h. ground (arith, offset_lem p expected small h)) far)
  Nearest-skip t (moved q offset e c eq near least) =
      moved q offset e (later expected p ps c) eq near (
        Candidate-all (λ q. offset ≤ q.framecnt - expected) expected p ps
          (λ a h. ground (arith, offset_lem p expected small h)) least)

  module _ (t : skip ≡ false) where
    chosen :
        (available p ≡ true)
        × (expected ≤ p.framecnt)
        × (sub_u32 p.framecnt expected ≡ p.framecnt - expected)
        × (p.framecnt - expected ≤ best)
    unfolding skip
    chosen = ground (arith, offset_lem p expected small)

    Nearest-take :
        {r : ℕ × Bool}
        → Nearest expected (sub_u32 p.framecnt expected) true ps r
        → Nearest expected best retval (p ∷ ps) r
    Nearest-take (kept e far) =
        let (a, h, o, near) = chosen in
        moved p (p.framecnt - expected) (rw o at e) (0, refl, a, h) refl near
          (Candidate-all (λ q. p.framecnt - expected ≤ q.framecnt - expected) expected p ps
            (λ _ _. omega arith) (λ q c. omega (arith, far q c, o)))
    Nearest-take (moved q offset e c eq near least) =
        let (a, h, o, near') = chosen in
        moved q offset e (later expected p ps c) eq (omega (arith, o)) (
          Candidate-all (λ q. offset ≤ q.framecnt - expected) expected p ps
            (λ _ _. omega (arith, o)) least)

    Nearest-exact :
        (sub_u32 p.framecnt expected == 0) ≡ true
        → Nearest expected best retval (p ∷ ps) (sub_u32 p.framecnt expected, true)
    Nearest-exact z =
        let (a, h, o, near) = chosen in
        moved p (sub_u32 p.framecnt expected) refl (0, refl, a, h) o (omega (arith, o))
          (λ q c. ground arith)

next_from-Nearest :
    (expected best : ℕ) (retval : Bool) (ps : List CachePacket)
    → IsFrames ps
    → Nearest expected best retval ps (next_from expected best retval ps)
unfolding next_from
next_from-Nearest expected best retval [] small = kept refl (λ q c. cc)
next_from-Nearest expected best retval (p ∷ ps) (small, smalls) =
    elim (Bool-cases
      (not (available p) || (ltb p.framecnt expected || ltb best (sub_u32 p.framecnt expected)))) [
        | inl t ↦ rw t (
            Nearest-skip expected best retval p ps small (unfold skip in t)
              (next_from-Nearest expected best retval ps smalls))
        | inr t ↦ elim (Bool-cases (sub_u32 p.framecnt expected == 0)) [
          | inl z ↦ rw (t, z) (Nearest-exact expected best retval p ps small (unfold skip in t) z)
          | inr n ↦
              rw (t, n)
                (Nearest-take expected best retval p ps small (unfold skip in t)
                  (next_from-Nearest expected (sub_u32 p.framecnt expected) true ps smalls))
        ]
      ]

-- What the query answers: the least frame of a candidate, which is within reach, or nothing, and then
-- no candidate is within reach.
pub data NextAnswer (expected reach : ℕ) (ps : List CachePacket) (r : Option ℕ) : Type 0 where
  found :
      (p : CachePacket)
      → r ≡ some p.framecnt
      → Candidate expected ps p
      → p.framecnt - expected ≤ reach
      → ((q : CachePacket) → Candidate expected ps q → p.framecnt ≤ q.framecnt)
      → NextAnswer expected reach ps r
  nothing :
      r ≡ none
      → ((q : CachePacket) → Candidate expected ps q → reach < q.framecnt - expected)
      → NextAnswer expected reach ps r

answer : ℕ → ℕ × Bool → Option ℕ
answer expected r = if r.1 then some (add_u32 expected r.0) else none

Nearest-answer :
    (expected reach : ℕ) (ps : List CachePacket)
    → IsFrames ps
    → {r : ℕ × Bool} → Nearest expected reach false ps r
    → NextAnswer expected reach ps (answer expected r)
unfolding answer
Nearest-answer expected reach ps small (kept e far) = nothing (rw e) far
Nearest-answer expected reach ps small (moved p offset e c eq near least) =
    let bound = All_at (λ q. q.framecnt < 2 ^ 32) ps c.0 small c.1 in
    found p (rw (e, eq) (ap some (omega (arith, bound, c.3)))) c (omega (arith, near, eq))
      (λ q d. omega (arith, least q d, eq, c.3, d.3))

-- Frames are compared as plain numbers: a complete frame in use, not below the frame expected, is
-- within reach if it is at most max_frames / 2 - 1 above it.
-- `packet_cache_get_next_available_framecnt` answers with the least complete frame in use that is not
-- below the frame expected if this one is within reach, and answers nothing only if no such frame is;
-- every frame is a 32-bit number.
pub next_available_lem :
    (max_frames expected : ℕ) (c : PacketCache)
    → IsFrames c.packets
    → NextAnswer expected
        (sub_u32 (max_frames / 2) 1)
        c.packets
        (packet_cache_get_next_available_framecnt max_frames c expected)
unfolding packet_cache_get_next_available_framecnt answer
next_available_lem max_frames expected c small =
    Nearest-answer expected (sub_u32 (max_frames / 2) 1) c.packets small
      (next_from-Nearest expected (sub_u32 (max_frames / 2) 1) false c.packets small)
