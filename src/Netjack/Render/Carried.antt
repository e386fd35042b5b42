-- ===== src/Netjack/Render/Carried.antt =====
-- The loop over the ports, for any way to render one: what one client puts into each port's part of
-- the payload, another takes out of it.
use jack_example_tools.Base.{
  ℕ, zero, suc, ◌*◌, ◌≤◌, ◌≡◌, refl, ap, ◌∙◌, arith, Option, none, some, List, [], ◌∷◌, ◌++◌,
  append-nil, map, le→leb, length, length-append, length-take, length-drop, take, drop,
}
use jack_example_tools.Memops.Loops.Strided.{slice_lem, suc-mul}
use jack_example_tools.Netjack.Midi.{slice}
use jack_example_tools.Netjack.Render.{JackPort, overlay, each_port}

pub take_whole {ℓ} : {A : Type ℓ} (n : ℕ) (xs : List A) → length xs ≡ n → take n xs ≡ xs
take_whole zero [] h = refl
take_whole zero (x ∷ xs) h = absurd (omega arith)
take_whole (suc n) [] h = refl
take_whole (suc n) (x ∷ xs) h = ap (◌∷◌ x) (take_whole n xs (omega arith))

drop_whole {ℓ} : {A : Type ℓ} (n : ℕ) (xs : List A) → length xs ≡ n → drop n xs ≡ []
drop_whole zero [] h = refl
drop_whole zero (x ∷ xs) h = absurd (omega arith)
drop_whole (suc n) [] h = refl
drop_whole (suc n) (x ∷ xs) h = drop_whole n xs (omega arith)

pub take-append {ℓ} : {A : Type ℓ} (n : ℕ) (xs ys : List A) → length xs ≡ n → take n (xs ++ ys) ≡ xs
take-append zero [] ys h = refl
take-append zero (x ∷ xs) ys h = absurd (omega arith)
take-append (suc n) [] ys h = absurd (omega arith)
take-append (suc n) (x ∷ xs) ys h = ap (◌∷◌ x) (take-append n xs ys (omega arith))

pub drop-append {ℓ} : {A : Type ℓ} (n : ℕ) (xs ys : List A) → length xs ≡ n → drop n (xs ++ ys) ≡ ys
drop-append zero [] ys h = refl
drop-append zero (x ∷ xs) ys h = absurd (omega arith)
drop-append (suc n) [] ys h = absurd (omega arith)
drop-append (suc n) (x ∷ xs) ys h = drop-append n xs ys (omega arith)

pub overlay_whole :
    (samples buf : List ℕ) → length buf ≡ length samples → overlay samples buf ≡ some samples
unfolding overlay
overlay_whole samples buf h =
    rw (le→leb (length samples) (length buf) (omega arith), drop_whole (length samples) buf h)
      (ap some (append-nil samples))

-- The ports of two clients stand in a relation, in order.
abbrev pub Paired : (JackPort → JackPort → Type 0) → List JackPort → List JackPort → Type 0
Paired R [] [] = Unit
Paired R (p ∷ ports) (q ∷ ports') = R p q × Paired R ports ports'
Paired R ports ports' = ⊥

module _ {S : Type 0} {S' : Type 0}
    (send : List ℕ → JackPort → List S → Option (List ℕ × JackPort × Option S))
    (receive : List ℕ → JackPort → List S' → Option (List ℕ × JackPort × Option S'))
    (arrived : JackPort → JackPort) where
  -- One port's part of the payload, whatever the receiver's buffer held.
  pub record Carried (p q : JackPort) (srcs : List S) (srcs' : List S') (part : List ℕ)
      : Type 0 where
    pub part' : List ℕ
    pub sent : send part p srcs ≡ some (part', p, none)
    pub same_length : length part' ≡ length part
    pub got : receive part' q srcs' ≡ some (part', arrived p, none)

  -- All the ports.
  pub record AllCarried (size : ℕ) (ports ports' : List JackPort) (srcs : List S) (srcs' : List S')
      (payload : List ℕ) : Type 0 where
    pub payload' : List ℕ
    pub sent :
        each_port send size payload ports srcs
        ≡ some (record { payload = payload'; ports = ports; srcs = srcs })
    pub same_length : length payload' ≡ length payload
    pub got :
        each_port receive size payload' ports' srcs'
        ≡ some (record { payload = payload'; ports = map arrived ports; srcs = srcs' })

  module _ (size : ℕ) (R : JackPort → JackPort → Type 0)
      (carry : (p q : JackPort) (srcs : List S) (srcs' : List S') (part : List ℕ)
        → R p q
        → length part ≡ size
        → Carried p q srcs srcs' part) where
    pub all_carried :
        (ports ports' : List JackPort) (srcs : List S) (srcs' : List S') (payload : List ℕ)
        → Paired R ports ports'
        → length ports * size ≤ length payload
        → AllCarried size ports ports' srcs srcs' payload
    unfolding each_port
    all_carried [] [] srcs srcs' payload same room = record {
      payload' = payload;
      sent = refl;
      same_length = refl;
      got = refl;
    }
    all_carried (p ∷ ports) (q ∷ ports') srcs srcs' payload (related, same) room =
        let all = suc-mul (length ports) size in
        let rest =
          all_carried ports ports' srcs srcs' (drop size payload) same
            (omega (arith, room, all, length-drop size payload)) in
        let part = take size payload in
        let cut : slice payload 0 size ≡ some part =
          slice_lem payload 0 size (omega (arith, room, all)) in
        let fits : length part ≡ size = omega (arith, room, all, length-take size payload) in
        let c = carry p q srcs srcs' part related fits in
        let fits' : length c.part' ≡ size = c.same_length ∙ fits in
        let whole = length-append c.part' rest.payload' in
        let front : slice (c.part' ++ rest.payload') 0 size ≡ some c.part' =
          slice_lem (c.part' ++ rest.payload') 0 size (omega (arith, whole, fits'))
          ∙ ap some (take-append size c.part' rest.payload' fits') in
        record {
          payload' = c.part' ++ rest.payload';
          sent = rw (cut, c.sent, rest.sent) refl;
          same_length =
              omega (arith, room, all, whole, fits', rest.same_length, length-drop size payload);
          got = rw (front, c.got, drop-append size c.part' rest.payload' fits', rest.got) refl;
        }
    all_carried ports ports' srcs srcs' payload same room = absurd same
