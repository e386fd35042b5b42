-- ===== src/Netjack/Render/Integer/RoundTrip.antt =====
-- What one client renders into a payload of 16-bit samples, another client renders out of it.
use jack_example_tools.Base.{
  ℕ, suc, ◌*◌, ◌/◌, ◌%◌, ◌^◌, ◌≤◌, ◌<◌, ◌≡◌, refl, ap, ap₂, ◌∙◌, arith, Bool, Option, some, List,
  [], ◌∷◌, map, ==_refl, length, All,
}
use jack_example_tools.Bytes.{ByteOrder, big}
use jack_example_tools.Memops.Float.{Floats}
use jack_example_tools.Memops.Loops.{read_loop}
use jack_example_tools.Memops.Loops.Strided.{write_loop-Written}
use jack_example_tools.Memops.Out.{bytes_16}
use jack_example_tools.Memops.Words.{host_word-bytes_16}
use jack_example_tools.Netjack.Midi.RoundTrip.{IsEvent, fitting, decode-encode}
use jack_example_tools.Netjack.Render.{JackPort, audio, midi, other}
use jack_example_tools.Netjack.Render.Carried.{
  take_whole, overlay_whole, Paired, Carried, all_carried,
}
use jack_example_tools.Netjack.Render.Integer.{
  sample_to_16, sample_of_16, put_16, get_16, part_to_port, port_to_part, from_payload,
  render_payload_to_jack_ports_16bit, render_jack_ports_to_payload_16bit,
  render_payload_to_jack_ports, render_jack_ports_to_payload,
}

-- Two ports of one type, with buffers of `n` samples; MIDI data only where `k` words are there for them.
abbrev pub SameType : ℕ → ℕ → JackPort → JackPort → Type 0
SameType n k (audio buf) (audio old) = (length buf ≡ n) × (length old ≡ n)
SameType n k (midi events) (midi old) = (0 < k) × All IsEvent events
SameType n k other other = Unit
SameType n k p q = ⊥

-- What arrives of a port when a sample arrives as `through` of it.
abbrev pub arrived : (ℕ → ℕ) → ℕ → JackPort → JackPort
arrived through k (audio buf) = audio (map through buf)
arrived through k (midi events) = midi (fitting 0 k events)
arrived through k other = other

map_ext : (f g : ℕ → ℕ) → ((w : ℕ) → f w ≡ g w) → (xs : List ℕ) → map f xs ≡ map g xs
map_ext f g same [] = refl
map_ext f g same (x ∷ xs) = ap₂ (◌∷◌) (same x) (map_ext f g same xs)

length-map_ℕ : (f : ℕ → ℕ) (xs : List ℕ) → length (map f xs) ≡ length xs
length-map_ℕ f [] = refl
length-map_ℕ f (x ∷ xs) = ap suc (length-map_ℕ f xs)

module _ {S : Type 0} {S' : Type 0} (src_process : S → List ℕ → ℕ → S × List ℕ)
    (src_process' : S' → List ℕ → ℕ → S' × List ℕ) (size n k : ℕ) (positive : 1 ≤ size)
    (whole : 0 < k → size * n ≡ 4 * k) (high : k < 2 ^ 31) (words words' : ℕ)
    (same_words : 0 < k → (words ≡ k) × (words' ≡ k)) (enc : ℕ → List ℕ)
    (enc_size : (w : ℕ) → length (enc w) ≡ size) (direct resampled : List ℕ → ℕ) (through : ℕ → ℕ)
    (direct-enc : (w : ℕ) → direct (enc w) ≡ through w) (uninit : List ℕ) where
  abbrev pub send : List ℕ → JackPort → List S → Option (List ℕ × JackPort × Option S)
  send = port_to_part src_process size words enc uninit n n

  abbrev pub receive : List ℕ → JackPort → List S' → Option (List ℕ × JackPort × Option S')
  receive = part_to_port src_process' size words' direct resampled n n

  pub carry :
      (p q : JackPort) (srcs : List S) (srcs' : List S') (part : List ℕ)
      → SameType n k p q
      → length part ≡ size * n
      → Carried send receive (arrived through k) p q srcs srcs' part
  unfolding port_to_part part_to_port
  carry (audio buf) (audio old) srcs srcs' part (len, len') fits =
      let lanes : n * size ≡ size * n = grind arith in
      let (part', ran, w) =
        write_loop-Written size size (omega arith) enc enc_size n part 0 buf (omega (arith, len))
          (omega (arith, fits, lanes)) in
      let back : read_loop size direct n part' 0 size ≡ some (map through buf) =
        w.read_back direct
        ∙ ap some (
            ap (map (λ s. direct (enc s))) (take_whole n buf len)
            ∙ map_ext _ through direct-enc buf) in
      record {
        part' = part';
        sent = rw (==_refl n, ran) refl;
        same_length = w.same_length;
        got =
            rw
              (
                ==_refl n,
                back,
                overlay_whole (map through buf) old
                    (omega (arith, len, len', length-map_ℕ through buf)),
              )
              refl;
      }
  carry (midi events) (midi old) srcs srcs' part (some_words, ok) fits =
      let (part', ran, same, back) =
        decode-encode part k events some_words high (fits ∙ whole some_words) ok in
      record {
        part' = part';
        sent = rw ((same_words some_words).0, ran) refl;
        same_length = same;
        got = rw ((same_words some_words).1, back) refl;
      }
  carry other other srcs srcs' part ok fits = record {
    part' = part;
    sent = refl;
    same_length = refl;
    got = refl;
  }
  carry p q srcs srcs' part ok fits = absurd ok

length-put_16 : (fl : Floats) (w : ℕ) → length (put_16 fl w) ≡ 2
unfolding bytes_16
length-put_16 fl w = refl

get_16-put_16 :
    (fl : Floats) (w : ℕ)
    → get_16 fl 32768 (put_16 fl w) ≡ sample_of_16 fl 32768 (sample_to_16 fl w)
get_16-put_16 fl w =
    ap (sample_of_16 fl 32768) (host_word-bytes_16 big (sample_to_16 fl w) ∙ omega arith)

module _ {S : Type 0} {S' : Type 0} (src_process : S → List ℕ → ℕ → S × List ℕ)
    (src_process' : S' → List ℕ → ℕ → S' × List ℕ) (fl : Floats) (uninit uninit' : List ℕ)
    (order order' : ByteOrder) (dont_htonl_floats : Bool) (n : ℕ) where
  -- At 16 bits and with an even period of `n` frames on both sides, ports of the same types: rendering
  -- the sender's ports into a payload with room for them succeeds and keeps its length, and rendering
  -- it to the receiver's ports gives them each sample as its 16-bit number stands for it, on either
  -- byte order, and the events of each MIDI port up to the first for which there was no room.
  pub depth_16_lem :
      (ports ports' : List JackPort) (srcs : List S) (srcs' : List S') (payload : List ℕ)
      → n % 2 ≡ 0
      → n < 2 ^ 32
      → Paired (SameType n (n / 2)) ports ports'
      → length ports * (2 * n) ≤ length payload
      → (payload' : List ℕ) × (render_jack_ports_to_payload src_process fl uninit order 16 ports
            srcs n payload n dont_htonl_floats
          ≡ some (record { payload = payload'; ports = ports; srcs = srcs }))
        × (length payload' ≡ length payload)
        × (render_payload_to_jack_ports src_process' fl uninit' order' 16
              (some payload')
              n
              ports'
              srcs'
              n
              dont_htonl_floats
            ≡ some (record {
              payload = payload';
              ports = map (arrived (λ w. sample_of_16 fl 32768 (sample_to_16 fl w)) (n / 2)) ports;
              srcs = srcs';
            }))
  unfolding render_jack_ports_to_payload render_payload_to_jack_ports
      render_jack_ports_to_payload_16bit render_payload_to_jack_ports_16bit from_payload
  depth_16_lem ports ports' srcs srcs' payload even high same room =
      let c =
        all_carried (port_to_part src_process 2 (n / 2) (put_16 fl) uninit n n)
          (part_to_port src_process' 2 (n / 2) (get_16 fl 32768) (get_16 fl 32767) n n)
          (arrived (λ w. sample_of_16 fl 32768 (sample_to_16 fl w)) (n / 2)) (2 * n)
          (SameType n (n / 2))
          (carry src_process src_process' 2 n (n / 2) (omega arith) (λ h. omega arith) (omega arith)
            (n / 2) (n / 2) (λ h. (refl, refl)) (put_16 fl) (length-put_16 fl) (get_16 fl 32768)
            (get_16 fl 32767) _ (get_16-put_16 fl) uninit)
          ports ports' srcs srcs' payload same room in
      (c.payload', c.sent, c.same_length, c.got)
