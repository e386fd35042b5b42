-- ===== src/Netjack/Cache/Find.antt =====
-- The search loops of the cache find what they look for, and say so when it is not there.
use jack_example_tools.Base.{
  ℕ, zero, suc, ◌+◌, ◌≤◌, ◌<◌, ◌≡◌, inl, inr, refl, sym, ◌∙◌, arith, Bool, true, false, none, some,
  List, [], ◌∷◌, ltb, get_elem?, ◌&&◌, Bool-cases, Option-cases, some_inj, none-ne-some,
}
use jack_example_tools.Netjack.Packet.{CachePacket}
use jack_example_tools.Netjack.Cache.{find_index, oldest_from}

module _ (test : CachePacket → Bool) (p : CachePacket) (ps : List CachePacket) where
  find_index_here : test p ≡ true → find_index test (p ∷ ps) ≡ some 0
  unfolding find_index
  find_index_here e = rw e

  find_index_absent : test p ≡ false → find_index test ps ≡ none → find_index test (p ∷ ps) ≡ none
  unfolding find_index
  find_index_absent e d = rw (e, d, find_index)

  find_index_later :
      {i : ℕ}
      → test p ≡ false
      → find_index test ps ≡ some i
      → find_index test (p ∷ ps) ≡ some (suc i)
  unfolding find_index
  find_index_later e d = rw (e, d, find_index)

-- The index found is that of a packet which passes the test.
pub find_index-some :
    (test : CachePacket → Bool) (ps : List CachePacket) {i : ℕ}
    → find_index test ps ≡ some i
    → (p : CachePacket) × (get_elem? ps i ≡ some p) × (test p ≡ true)
unfolding find_index
find_index-some test [] e = cc
find_index-some test (p ∷ ps) {i} e = elim (Bool-cases (test p)) [
  | inl here ↦
      let zero_i : 0 ≡ i = some_inj (sym (find_index_here test p ps here) ∙ e) in
      (p, rw (← zero_i), here)
  | inr there ↦ elim (Option-cases (find_index test ps)) [
    | inl nowhere ↦ absurd (none-ne-some (sym (find_index_absent test p ps there nowhere) ∙ e))
    | inr (k, later) ↦
        let suc_i : suc k ≡ i = some_inj (sym (find_index_later test p ps there later) ∙ e) in
        let (q, at, passes) = find_index-some test ps later in (q, rw (← suc_i) at, passes)
  ]
]

find_index-none_cons :
    (test : CachePacket → Bool) (q : CachePacket) (ps : List CachePacket)
    → find_index test (q ∷ ps) ≡ none
    → (test q ≡ false) × (find_index test ps ≡ none)
find_index-none_cons test q ps e = elim (Bool-cases (test q)) [
  | inl here ↦ absurd (none-ne-some (sym e ∙ find_index_here test q ps here))
  | inr there ↦ elim (Option-cases (find_index test ps)) [
    | inr (k, later) ↦ absurd (none-ne-some (sym e ∙ find_index_later test q ps there later))
    | inl nowhere ↦ (there, nowhere)
  ]
]

-- Where nothing is found, no packet passes.
pub find_index-none :
    (test : CachePacket → Bool) (ps : List CachePacket) (i : ℕ) {p : CachePacket}
    → find_index test ps ≡ none
    → get_elem? ps i ≡ some p
    → test p ≡ false
find_index-none test [] i e d = cc
find_index-none test (q ∷ ps) zero e d = rw (some_inj d) at ((find_index-none_cons test q ps e).0)
find_index-none test (q ∷ ps) (suc i) e d =
    find_index-none test ps i (find_index-none_cons test q ps e).1 d

-- What `oldest_from` has found when it ends.
pub data Oldest (i minimal_frame retval : ℕ) (ps : List CachePacket) (found : ℕ) : Type 0 where
  kept :
      found ≡ retval
      → ((j : ℕ) (q : CachePacket)
          → get_elem? ps j ≡ some q
          → q.valid ≡ true
          → minimal_frame ≤ q.framecnt)
      → Oldest i minimal_frame retval ps found
  moved :
      (k : ℕ) (p : CachePacket)
      → found ≡ i + k
      → get_elem? ps k ≡ some p
      → p.framecnt < minimal_frame
      → ((j : ℕ) (q : CachePacket)
          → get_elem? ps j ≡ some q
          → q.valid ≡ true
          → p.framecnt ≤ q.framecnt)
      → Oldest i minimal_frame retval ps found

-- A lower bound of the frames in use.
abbrev pub Below : ℕ → List CachePacket → Type 0
Below m ps = (j : ℕ) (q : CachePacket) → get_elem? ps j ≡ some q → q.valid ≡ true → m ≤ q.framecnt

Below-cons :
    (m : ℕ) (p : CachePacket) (ps : List CachePacket)
    → (p.valid ≡ true → m ≤ p.framecnt)
    → Below m ps
    → Below m (p ∷ ps)
Below-cons m p ps h b zero q e v = ground (arith, some_inj e)
Below-cons m p ps h b (suc j) q e v = b j q e v

module _ (i m r : ℕ) (p : CachePacket) (ps : List CachePacket) where
  Oldest-older :
      {found : ℕ}
      → p.framecnt < m
      → Oldest (suc i) p.framecnt i ps found
      → Oldest i m r (p ∷ ps) found
  Oldest-older h (kept e b) =
      moved 0 p (omega (arith, e)) refl h (Below-cons p.framecnt p ps (λ v. omega arith) b)
  Oldest-older h (moved k q e at less b) =
      moved (suc k) q (omega (arith, e)) at (omega arith)
        (Below-cons q.framecnt p ps (λ v. omega arith) b)

  Oldest-newer :
      {found : ℕ}
      → (p.valid ≡ true → m ≤ p.framecnt)
      → Oldest (suc i) m r ps found
      → Oldest i m r (p ∷ ps) found
  Oldest-newer h (kept e b) = kept e (Below-cons m p ps h b)
  Oldest-newer h (moved k q e at less b) =
      moved (suc k) q (omega (arith, e)) at less
        (Below-cons q.framecnt p ps (λ v. omega (arith, h v)) b)

pub oldest_from-Oldest :
    (i minimal_frame retval : ℕ) (ps : List CachePacket)
    → Oldest i minimal_frame retval ps (oldest_from i minimal_frame retval ps)
unfolding oldest_from
oldest_from-Oldest i m r [] = kept refl (λ j q e. cc)
oldest_from-Oldest i m r (p ∷ ps) = elim (Bool-cases (p.valid && ltb p.framecnt m)) [
  | inl older ↦
      rw older (Oldest-older i m r p ps (ground arith) (oldest_from-Oldest (suc i) p.framecnt i ps))
  | inr newer ↦
      rw newer (Oldest-newer i m r p ps (λ v. ground arith) (oldest_from-Oldest (suc i) m r ps))
]
