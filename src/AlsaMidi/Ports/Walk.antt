-- ===== src/AlsaMidi/Ports/Walk.antt =====
-- The round of a cycle over the ports loses no port.
use jack_example_tools.Base.{
  ℕ, ◌+◌, ◌≤◌, ◌<◌, ◌≡◌, ◌⊎◌, refl, sym, ap, ◌∙◌, inl, inr, arith, Bool, true, false, not, List, [],
  ◌∷◌, ◌++◌, ltb, if◌then◌else◌, Bool-cases, length, length-append, append-nil, append_assoc,
  ltb→lt, ltb→le, lt→ltb, ap₂,
}
use jack_example_tools.AlsaMidi.Ports.{
  Round, process, remove, keep, walk, walk_all, Port, is_dead_at, a2j_add_ports,
  a2j_jack_process_internal,
}

-- The pointers of all chains that pass a test.
abbrev pub select : (ℕ → Bool) → List ℕ → List ℕ
select t [] = []
select t (i ∷ is) = if t i then i ∷ select t is else select t is

abbrev pub concat : List (List ℕ) → List ℕ
concat [] = []
concat (xs ∷ xss) = xs ++ concat xss

abbrev pub alive : (ℕ → Bool) → ℕ → Bool
alive dead i = not (dead i)

module _ (dead : ℕ → Bool) (capacity : ℕ) (queued : ℕ → ℕ) where
  -- What is done to the pointers `is`, of which `is'` are left.
  pub record Walked (is is' : List ℕ) (s s' : Round) : Type 0 where
    pub processed : s'.processed ≡ s.processed ++ select (alive dead) is
    pub stay : select (alive dead) is' ≡ select (alive dead) is
    pub queue : s'.port_del ++ select dead is' ≡ s.port_del ++ select dead is
    pub stuck :
        capacity ≤ length s.port_del
        → (s'.port_del ≡ s.port_del) × (select dead is' ≡ select dead is)
    pub room : length s.port_del ≤ capacity → length s'.port_del ≤ capacity
    pub counted : length s'.port_del + s.nevents ≤ s'.nevents + length s.port_del
    pub full : (select dead is' ≡ []) ⊎ (capacity ≤ length s'.port_del)

  walk_live :
      (i : ℕ) (chain : List ℕ) (s : Round)
      → dead i ≡ false
      → walk dead capacity queued (i ∷ chain) s
        ≡ keep dead capacity queued i
            (walk dead capacity queued chain (process dead capacity queued s i))
  unfolding walk
  walk_live i chain s l = rw (l, walk) refl

  walk_gone :
      (i : ℕ) (chain : List ℕ) (s : Round)
      → dead i ≡ true
      → length s.port_del < capacity
      → walk dead capacity queued (i ∷ chain) s
        ≡ walk dead capacity queued chain (remove dead capacity queued s i)
  unfolding walk
  walk_gone i chain s d h =
      let yes_room : ltb (length s.port_del) capacity ≡ true = ground arith in
      rw (d, walk) (rw (yes_room, walk) refl)

  walk_kept :
      (i : ℕ) (chain : List ℕ) (s : Round)
      → dead i ≡ true
      → capacity ≤ length s.port_del
      → walk dead capacity queued (i ∷ chain) s
        ≡ keep dead capacity queued i (walk dead capacity queued chain s)
  unfolding walk
  walk_kept i chain s d h =
      let no : ltb (length s.port_del) capacity ≡ false = ground arith in
      rw (d, walk) (rw (no, walk) refl)

  -- Once the queue is full, no port is removed.
  walk-full :
      (chain : List ℕ) (s : Round)
      → capacity ≤ length s.port_del
      → ((walk dead capacity queued chain s).0 ≡ chain)
        × ((walk dead capacity queued chain s).1.port_del ≡ s.port_del)
        × ((walk dead capacity queued chain s).1.processed
            ≡ s.processed ++ select (alive dead) chain)
        × (s.nevents ≤ (walk dead capacity queued chain s).1.nevents)
  walk-full [] s h = unfold walk in (refl, refl, sym (append-nil s.processed), omega arith)
  walk-full (i ∷ chain) s h = elim (Bool-cases (dead i)) [
    | inl d ↦
        let (a, b, c, n) = walk-full chain s h in
        rw (walk_kept i chain s d h, d) (ap (◌∷◌ i) a, b, c, n)
    | inr l ↦
        let (a, b, c, n) = walk-full chain (process dead capacity queued s i) h in
        rw (walk_live i chain s l, l)
          (
            ap (◌∷◌ i) a,
            b,
            c ∙ append_assoc s.processed (i ∷ []) (select (alive dead) chain),
            omega (arith, n),
          )
  ]

  keep-Walked :
      (i : ℕ) {chain chain' : List ℕ} {s s' : Round}
      → dead i ≡ false
      → Walked chain chain' (process dead capacity queued s i) s'
      → Walked (i ∷ chain) (i ∷ chain') s s'
  keep-Walked i {chain = chain} {s = s} l w = record {
    processed = rw l (w.processed ∙ append_assoc s.processed (i ∷ []) (select (alive dead) chain));
    stay = rw l (ap (◌∷◌ i) w.stay);
    queue = rw l w.queue;
    stuck = rw l w.stuck;
    room = w.room;
    full = rw l w.full;
    counted = omega (arith, w.counted);
  }

  remove-Walked :
      (i : ℕ) {chain chain' : List ℕ} {s s' : Round}
      → dead i ≡ true
      → length s.port_del < capacity
      → Walked chain chain' (remove dead capacity queued s i) s'
      → Walked (i ∷ chain) chain' s s'
  remove-Walked i {chain = chain} {s = s} d space w = record {
    processed = rw d w.processed;
    stay = rw d w.stay;
    queue = rw d (w.queue ∙ append_assoc s.port_del (i ∷ []) (select dead chain));
    stuck = λ h. absurd (omega arith);
    room = λ h. w.room (omega (arith, length-append s.port_del (i ∷ [])));
    full = w.full;
    counted = omega (arith, w.counted, length-append s.port_del (i ∷ []));
  }

  full-Walked :
      (chain : List ℕ) (s : Round)
      → capacity ≤ length s.port_del
      → let r = walk dead capacity queued chain s in Walked chain r.0 s r.1
  full-Walked chain s h =
      let (a, b, c, d) = walk-full chain s h in
      record {
        processed = c;
        stay = ap (select (alive dead)) a;
        queue = ap₂ ◌++◌ b (ap (select dead) a);
        stuck = λ k. (b, ap (select dead) a);
        room = λ k. rw b k;
        full = inr (rw b h);
        counted = omega (arith, ap length b, d);
      }

  Walked-nil : (s : Round) → Walked [] [] s s
  Walked-nil s = record {
    processed = sym (append-nil s.processed);
    stay = refl;
    queue = refl;
    stuck = λ h. (refl, refl);
    room = λ h. h;
    full = inl refl;
    counted = omega arith;
  }

  walk-Walked :
      (chain : List ℕ) (s : Round)
      → let r = walk dead capacity queued chain s in Walked chain r.0 s r.1
  walk-Walked [] s = unfold walk in Walked-nil s
  walk-Walked (i ∷ chain) s = elim (Bool-cases (dead i)) [
    | inr l ↦
        rw (walk_live i chain s l)
          (keep-Walked i l (walk-Walked chain (process dead capacity queued s i)))
    | inl d ↦ elim (Bool-cases (ltb (length s.port_del) capacity)) [
      | inl space ↦
          let h = ltb→lt _ _ space in
          rw (walk_gone i chain s d h)
            (remove-Walked i d h (walk-Walked chain (remove dead capacity queued s i)))
      | inr limit ↦ full-Walked (i ∷ chain) s (ltb→le _ _ limit)
    ]
  ]

  select-append : (t : ℕ → Bool) (xs ys : List ℕ) → select t (xs ++ ys) ≡ select t xs ++ select t ys
  select-append t [] ys = refl
  select-append t (x ∷ xs) ys = elim (Bool-cases (t x)) [
    | inl y ↦ rw y (ap (◌∷◌ x) (select-append t xs ys))
    | inr n ↦ rw n (select-append t xs ys)
  ]

  queue_lem :
      (d a : List ℕ) {d' d'' a' b b' : List ℕ}
      → d' ++ a' ≡ d ++ a
      → d'' ++ b' ≡ d' ++ b
      → (a' ≡ []) ⊎ ((d'' ≡ d') × (b' ≡ b))
      → d'' ++ (a' ++ b') ≡ d ++ (a ++ b)
  queue_lem d a {d' = d'} {b = b} first second (inl none_left) =
      rw none_left second
      ∙ ap (λ t. t ++ b) (sym (append-nil d') ∙ sym (ap (λ t. d' ++ t) none_left) ∙ first)
      ∙ append_assoc d a b
  queue_lem d a {d' = d'} {a' = a'} {b = b} first second (inr (same, rest)) =
      ap₂ ◌++◌ same (ap (λ t. a' ++ t) rest)
      ∙ sym (append_assoc d' a' b)
      ∙ ap (λ t. t ++ b) first
      ∙ append_assoc d a b

  -- One chain after the others.
  join :
      {xs xs' ys ys' : List ℕ} {s s' s'' : Round}
      → Walked xs xs' s s'
      → Walked ys ys' s' s''
      → Walked (xs ++ ys) (xs' ++ ys') s s''
  join {xs = xs} {xs' = xs'} {ys = ys} {ys' = ys'} {s = s} {s' = s'} {s'' = s''} v w = record {
    processed =
        w.processed
        ∙ ap (λ t. t ++ select (alive dead) ys) v.processed
        ∙ append_assoc s.processed (select (alive dead) xs) (select (alive dead) ys)
        ∙ ap (λ t. s.processed ++ t) (sym (select-append (alive dead) xs ys));
    stay =
        select-append (alive dead) xs' ys'
        ∙ ap₂ ◌++◌ v.stay w.stay
        ∙ sym (select-append (alive dead) xs ys);
    queue =
        rw (select-append dead xs' ys', select-append dead xs ys)
          (queue_lem s.port_del (select dead xs) v.queue w.queue
            (elim v.full [ inl none_left ↦ inl none_left | inr h ↦ inr (w.stuck h) ]));
    stuck = λ h.
        let (a, b) = v.stuck h in
        let (c, d) = w.stuck (rw a h) in
        (c ∙ a, select-append dead xs' ys' ∙ ap₂ ◌++◌ b d ∙ sym (select-append dead xs ys));
    room = λ h. w.room (v.room h);
    full = elim v.full [
      | inl none_left ↦ elim w.full [
        | inl none_more ↦ inl (select-append dead xs' ys' ∙ ap₂ ◌++◌ none_left none_more)
        | inr h ↦ inr h
      ]
      | inr h ↦ inr (rw ((w.stuck h).0) h)
    ];
    counted = omega (arith, v.counted, w.counted);
  }

  walk_all-Walked :
      (hash : List (List ℕ)) (s : Round)
      → let r = walk_all dead capacity queued hash s in Walked (concat hash) (concat r.0) s r.1
  unfolding walk_all
  walk_all-Walked [] s = Walked-nil s
  walk_all-Walked (chain ∷ hash) s =
      join (walk-Walked chain s) (walk_all-Walked hash (walk dead capacity queued chain s).1)

-- One round over the ports, the new ones included, processes every live port of the hash once, in
-- order, and keeps it; a dead port is either moved to the queue of ports to delete or kept, the
-- order of the dead ports being the same, and one is kept only if the queue is full, whose capacity
-- is never exceeded. On playback the output thread is woken if a port was moved.
pub process_internal-Walked :
    (ports : List Port) (capacity : ℕ) (queued : ℕ → ℕ) (playback : Bool) (new_ports : List ℕ)
    (hash : List (List ℕ)) (port_del : List ℕ)
    → length port_del ≤ capacity
    → let dead = is_dead_at ports in
      let old = concat (a2j_add_ports ports new_ports hash) in
      let (hash', s, woken) =
        a2j_jack_process_internal ports capacity queued playback new_ports hash port_del in
      (s.processed ≡ select (alive dead) old)
      × (select (alive dead) (concat hash') ≡ select (alive dead) old)
      × (s.port_del ++ select dead (concat hash') ≡ port_del ++ select dead old)
      × (length s.port_del ≤ capacity)
      × ((select dead (concat hash') ≡ []) ⊎ (length s.port_del ≡ capacity))
      × (playback ≡ true → length port_del < length s.port_del → woken ≡ true)
unfolding a2j_jack_process_internal
process_internal-Walked ports capacity queued playback new_ports hash port_del h =
    let w =
      walk_all-Walked (is_dead_at ports) capacity queued (a2j_add_ports ports new_ports hash)
        (record { processed = []; port_del = port_del; nevents = 0 }) in
    (
      w.processed,
      w.stay,
      w.queue,
      w.room h,
      elim w.full [ inl none_left ↦ inl none_left | inr k ↦ inr (omega (arith, w.room h, k)) ],
      λ on more. rw on (lt→ltb 0 _ (omega (arith, w.counted, more))),
    )
