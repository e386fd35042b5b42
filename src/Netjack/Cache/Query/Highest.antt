-- ===== src/Netjack/Cache/Query/Highest.antt =====
-- The highest available frame is the greatest one.
use jack_example_tools.Base.{
  ℕ, zero, suc, ◌≤◌, ◌<◌, ◌≡◌, refl, inl, inr, arith, Bool, true, false, not, ◌||◌, Option, none,
  some, List, [], ◌∷◌, if◌then◌else◌, ltb, get_elem?, Bool-cases, some_inj,
}
use jack_example_tools.Netjack.Packet.{CachePacket}
use jack_example_tools.Netjack.Cache.{PacketCache}
use jack_example_tools.Netjack.Cache.Query.{
  available, highest_from, packet_cache_get_highest_available_framecnt,
}

abbrev pub Ready : List CachePacket → CachePacket → Type 0
Ready ps p = (j : ℕ) × (get_elem? ps j ≡ some p) × (available p ≡ true)

Ready-all {κ} :
    (P : CachePacket → Type κ) (p : CachePacket) (ps : List CachePacket)
    → (available p ≡ true → P p)
    → ((q : CachePacket) → Ready ps q → P q)
    → (q : CachePacket) → Ready (p ∷ ps) q
    → P q
Ready-all P p ps first rest q (zero, e, a) =
    let same : p ≡ q = some_inj e in rw (← same) (first (rw (← same) at a))
Ready-all P p ps first rest q (suc j, e, a) = rest q (j, e, a)

-- The frame found is at least the one that the search began with, and at least any available one.
data Top (best : ℕ) (retval : Bool) (ps : List CachePacket) (r : ℕ × Bool) : Type 0 where
  kept :
      r ≡ (best, retval)
      → ((q : CachePacket) → Ready ps q → q.framecnt < best)
      → Top best retval ps r
  moved :
      (p : CachePacket)
      → r ≡ (p.framecnt, true)
      → Ready ps p
      → best ≤ p.framecnt
      → ((q : CachePacket) → Ready ps q → q.framecnt ≤ p.framecnt)
      → Top best retval ps r

module _ (best : ℕ) (retval : Bool) (p : CachePacket) (ps : List CachePacket) where
  Top-skip :
      {r : ℕ × Bool}
      → (not (available p) || ltb p.framecnt best) ≡ true
      → Top best retval ps r
      → Top best retval (p ∷ ps) r
  Top-skip t (kept e low) = kept e (Ready-all (λ q. q.framecnt < best) p ps (λ a. ground arith) low)
  Top-skip t (moved q e (j, at, a) high top) =
      moved q e (suc j, at, a) high
        (Ready-all (λ x. x.framecnt ≤ q.framecnt) p ps (λ a'. ground arith) top)

  Top-take :
      {r : ℕ × Bool}
      → (not (available p) || ltb p.framecnt best) ≡ false
      → Top p.framecnt true ps r
      → Top best retval (p ∷ ps) r
  Top-take t (kept e low) =
      moved p e (0, refl, ground arith) (ground arith)
        (Ready-all (λ q. q.framecnt ≤ p.framecnt) p ps (λ a. omega arith)
          (λ q c. omega (arith, low q c)))
  Top-take t (moved q e (j, at, a) high top) =
      moved q e (suc j, at, a) (ground arith)
        (Ready-all (λ x. x.framecnt ≤ q.framecnt) p ps (λ a'. high) top)

highest_from-Top :
    (best : ℕ) (retval : Bool) (ps : List CachePacket)
    → Top best retval ps (highest_from best retval ps)
unfolding highest_from
highest_from-Top best retval [] = kept refl (λ q c. cc)
highest_from-Top best retval (p ∷ ps) =
    elim (Bool-cases (not (available p) || ltb p.framecnt best)) [
      | inl t ↦ rw t (Top-skip best retval p ps t (highest_from-Top best retval ps))
      | inr t ↦ rw t (Top-take best retval p ps t (highest_from-Top p.framecnt true ps))
    ]

-- The answer of the query: the greatest available frame, or nothing where none is available.
pub data HighestAnswer (ps : List CachePacket) (r : Option ℕ) : Type 0 where
  found :
      (p : CachePacket)
      → r ≡ some p.framecnt
      → Ready ps p
      → ((q : CachePacket) → Ready ps q → q.framecnt ≤ p.framecnt)
      → HighestAnswer ps r
  nothing : r ≡ none → ((q : CachePacket) → ¬ Ready ps q) → HighestAnswer ps r

answer : ℕ × Bool → Option ℕ
answer r = if r.1 then some r.0 else none

Top-answer : (ps : List CachePacket) {r : ℕ × Bool} → Top 0 false ps r → HighestAnswer ps (answer r)
unfolding answer
Top-answer ps (kept e low) = nothing (rw e) (λ q c. elim (low q c) [ ])
Top-answer ps (moved p e c high top) = found p (rw e) c top

-- `packet_cache_get_highest_available_framecnt` answers with the greatest frame of a complete packet
-- in use, and answers nothing only if there is no such packet.
pub highest_available_lem :
    (c : PacketCache) → HighestAnswer c.packets (packet_cache_get_highest_available_framecnt c)
unfolding packet_cache_get_highest_available_framecnt answer
highest_available_lem c = Top-answer c.packets (highest_from-Top 0 false c.packets)
