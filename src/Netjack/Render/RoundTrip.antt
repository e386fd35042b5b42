-- ===== src/Netjack/Render/RoundTrip.antt =====
-- What one client renders into a payload, another client renders out of it.
use jack_example_tools.Base.{
  ℕ, ◌*◌, ◌^◌, ◌≤◌, ◌<◌, ◌≡◌, ◌⊎◌, inl, inr, refl, sym, ap, ap₂, ◌∙◌, arith, Bool, true, false,
  Option, some, List, [], ◌∷◌, map, ==_refl, if◌then◌else◌, length, All,
}
use jack_example_tools.Bytes.{ByteOrder, little, big, net32, word_bytes}
use jack_example_tools.Memops.Loops.{read_loop}
use jack_example_tools.Memops.Loops.Strided.{write_loop-Written}
use jack_example_tools.Memops.In.{host_word}
use jack_example_tools.Memops.Words.{host_word-word_bytes}
use jack_example_tools.Netjack.Midi.{MidiEvent}
use jack_example_tools.Netjack.Midi.RoundTrip.{IsEvent, fitting, decode-encode}
use jack_example_tools.Netjack.Render.Carried.{
  take_whole, overlay_whole, Paired, Carried, all_carried,
}
use jack_example_tools.Netjack.Render.{
  JackPort, audio, midi, other, sample_bytes, sample_of, payload_to_port, port_to_payload,
  render_payload_to_jack_ports_float, render_jack_ports_to_payload_float,
}

-- Two ports of one type: the sender's has `n` samples of 32 bits, or events of 32-bit times and sizes,
-- the receiver's has room for `n` samples.
abbrev pub Match : ℕ → JackPort → JackPort → Type 0
Match n (audio buf) (audio old) = (length buf ≡ n) × All (λ w. w < 2 ^ 32) buf × (length old ≡ n)
Match n (midi events) (midi old) = All IsEvent events
Match n other other = Unit
Match n p q = ⊥

-- What arrives of a port: its samples, or the events for which there was room.
abbrev pub arrived : ℕ → JackPort → JackPort
arrived n (audio buf) = audio buf
arrived n (midi events) = midi (fitting 0 n events)
arrived n other = other

map_same :
    (f : ℕ → ℕ) (xs : List ℕ)
    → ((w : ℕ) → w < 2 ^ 32 → f w ≡ w)
    → All (λ w. w < 2 ^ 32) xs
    → map f xs ≡ xs
map_same f [] same h = refl
map_same f (x ∷ xs) same (a, h) = ap₂ (◌∷◌) (same x a) (map_same f xs same h)

-- Two hosts and the form of samples that they agree on: that of the network, or that of both hosts.
module _ (order order' : ByteOrder) (dont_htonl_floats : Bool)
    (agree : (dont_htonl_floats ≡ false) ⊎ (order ≡ order')) where
  length-word_bytes : (order : ByteOrder) (w : ℕ) → length (word_bytes order w) ≡ 4
  unfolding word_bytes net32
  length-word_bytes little w = refl
  length-word_bytes big w = refl

  length-sample_bytes : (w : ℕ) → length (sample_bytes order dont_htonl_floats w) ≡ 4
  length-sample_bytes w = if_both dont_htonl_floats
    where
      if_both : (b : Bool) → length (if b then word_bytes order w else net32 w) ≡ 4
      if_both true = length-word_bytes order w
      if_both false = unfold net32 in refl

  sample_of-sample_bytes :
      (w : ℕ)
      → w < 2 ^ 32
      → sample_of order' dont_htonl_floats (sample_bytes order dont_htonl_floats w) ≡ w
  unfolding word_bytes
  sample_of-sample_bytes w h = if_both dont_htonl_floats agree
    where
      if_both :
          (b : Bool)
          → (b ≡ false) ⊎ (order ≡ order')
          → (if b
              then host_word order' (if b then word_bytes order w else net32 w)
              else host_word big (if b then word_bytes order w else net32 w))
            ≡ w
      if_both false e = host_word-word_bytes big w h
      if_both true (inl e) = cc
      if_both true (inr e) =
          ap (λ o. host_word o (word_bytes order w)) (sym e) ∙ host_word-word_bytes order w h

  module _ {S : Type 0} {S' : Type 0} (src_process : S → List ℕ → ℕ → S × List ℕ)
      (src_process' : S' → List ℕ → ℕ → S' × List ℕ) (n : ℕ) (positive : 0 < n)
      (high : n < 2 ^ 31) where
    abbrev send : List ℕ → JackPort → List S → Option (List ℕ × JackPort × Option S)
    send = port_to_payload src_process order dont_htonl_floats n n

    abbrev receive : List ℕ → JackPort → List S' → Option (List ℕ × JackPort × Option S')
    receive = payload_to_port src_process' order' dont_htonl_floats n n

    audio-Carried :
        (buf old : List ℕ) (srcs : List S) (srcs' : List S') (part : List ℕ)
        → length buf ≡ n
        → All (λ w. w < 2 ^ 32) buf
        → length old ≡ n
        → length part ≡ 4 * n
        → Carried send receive (arrived n) (audio buf) (audio old) srcs srcs' part
    unfolding port_to_payload payload_to_port
    audio-Carried buf old srcs srcs' part len words len' size =
        let (part', ran, w) =
          write_loop-Written 4 4 (omega arith) (sample_bytes order dont_htonl_floats)
            length-sample_bytes n part 0 buf (omega arith) (omega arith) in
        let back : read_loop 4 (sample_of order' dont_htonl_floats) n part' 0 4 ≡ some buf =
          w.read_back (sample_of order' dont_htonl_floats)
          ∙ ap some (
              ap
                (map (λ s.
                  sample_of order' dont_htonl_floats (sample_bytes order dont_htonl_floats s)))
                (take_whole n buf len)
              ∙ map_same _ buf sample_of-sample_bytes words) in
        record {
          part' = part';
          sent = rw (==_refl n, ran) refl;
          same_length = w.same_length;
          got = rw (==_refl n, back, overlay_whole buf old (omega (arith, len, len'))) refl;
        }

    midi-Carried :
        (events old : List MidiEvent) (srcs : List S) (srcs' : List S') (part : List ℕ)
        → All IsEvent events
        → length part ≡ 4 * n
        → Carried send receive (arrived n) (midi events) (midi old) srcs srcs' part
    unfolding port_to_payload payload_to_port
    midi-Carried events old srcs srcs' part ok size =
        let (part', ran, same, back) = decode-encode part n events positive high size ok in
        record { part' = part'; sent = rw ran refl; same_length = same; got = rw back refl }

    other-Carried :
        (srcs : List S) (srcs' : List S') (part : List ℕ)
        → Carried send receive (arrived n) other other srcs srcs' part
    unfolding port_to_payload payload_to_port
    other-Carried srcs srcs' part = record {
      part' = part;
      sent = refl;
      same_length = refl;
      got = refl;
    }

    carry :
        (p q : JackPort) (srcs : List S) (srcs' : List S') (part : List ℕ)
        → Match n p q
        → length part ≡ 4 * n
        → Carried send receive (arrived n) p q srcs srcs' part
    carry (audio buf) (audio old) srcs srcs' part (len, words, len') size =
        audio-Carried buf old srcs srcs' part len words len' size
    carry (midi events) (midi old) srcs srcs' part ok size =
        midi-Carried events old srcs srcs' part ok size
    carry other other srcs srcs' part ok size = other-Carried srcs srcs' part
    carry p q srcs srcs' part ok size = absurd ok

    -- Where both clients' periods are `n` frames and the packet's too, the ports are of the same types and
    -- the samples are sent in network order or between hosts of one byte order: rendering the sender's
    -- ports into a payload with room for them succeeds and keeps its length, and rendering this
    -- payload to the receiver's ports gives them the same samples and, of the events of each MIDI port,
    -- those up to the first for which there was no room. No resampler is used.
    pub payload_to_ports-ports_to_payload :
        (ports ports' : List JackPort) (srcs : List S) (srcs' : List S') (payload : List ℕ)
        → Paired (Match n) ports ports'
        → length ports * (4 * n) ≤ length payload
        → (payload' : List ℕ) × (render_jack_ports_to_payload_float src_process order
              dont_htonl_floats ports srcs n payload n
            ≡ some (record { payload = payload'; ports = ports; srcs = srcs }))
          × (length payload' ≡ length payload)
          × (render_payload_to_jack_ports_float src_process' order' dont_htonl_floats
                (some payload')
                n
                ports'
                srcs'
                n
              ≡ some (record { payload = payload'; ports = map (arrived n) ports; srcs = srcs' }))
    unfolding render_jack_ports_to_payload_float render_payload_to_jack_ports_float
    payload_to_ports-ports_to_payload ports ports' srcs srcs' payload same room =
        let c =
          all_carried send receive (arrived n) (4 * n) (Match n) carry ports ports' srcs srcs'
            payload same room in
        (c.payload', c.sent, c.same_length, c.got)
