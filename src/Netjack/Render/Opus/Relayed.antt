-- ===== src/Netjack/Render/Opus/Relayed.antt =====
-- What one client compresses into a payload, another client's decoders are given.
use jack_example_tools.Base.{
  ℕ, ◌+◌, ◌-◌, ◌*◌, ◌%◌, ◌^◌, ◌≤◌, ◌<◌, ◌≡◌, refl, sym, ap, ◌∙◌, arith, some, List, [], ◌∷◌, ◌++◌,
  ◌>>=◌, le→leb, length, length-append, length-take, length-drop, take, drop,
}
use jack_example_tools.Bytes.{big, splice}
use jack_example_tools.Bytes.Laws.{length-splice, get_elem?-splice_after}
use jack_example_tools.Machine.{sub_size}
use jack_example_tools.Memops.Loops.{put}
use jack_example_tools.Memops.Loops.Strided.{slice_lem, put_lem, suc-mul, slice-splice, slice_congr}
use jack_example_tools.Memops.Loops.Unrolled.{bind_assoc}
use jack_example_tools.Memops.Out.{bytes_16}
use jack_example_tools.Memops.In.{host_word}
use jack_example_tools.Memops.Words.{host_word-bytes_16}
use jack_example_tools.Netjack.Midi.{slice}
use jack_example_tools.Netjack.Render.{JackPort, audio, midi, other, first, each_port}
use jack_example_tools.Netjack.Render.Carried.{take-append, drop-append}
use jack_example_tools.Netjack.Render.Opus.{
  cdo, port_to_opus, opus_to_port, render_jack_ports_to_payload_opus,
  render_payload_to_jack_ports_opus,
}

module _ {S : Type 0} {S' : Type 0} (opus_encode : S → List ℕ → ℕ → S × List ℕ × ℕ)
    (opus_decode : S' → List ℕ → List ℕ → ℕ → S' × List ℕ) (n nframes : ℕ) where
  -- Ports of the same types, none of MIDI, with buffers of the sender's samples and a coder for each
  -- audio port.
  abbrev pub Ready : List JackPort → List JackPort → List S → List S' → Type 0
  Ready [] [] srcs srcs' = Unit
  Ready (audio buf ∷ ports) (audio old ∷ ports') (e ∷ srcs) (d ∷ srcs') =
      (nframes ≤ length buf) × Ready ports ports' srcs srcs'
  Ready (other ∷ ports) (other ∷ ports') srcs srcs' = Ready ports ports' srcs srcs'
  Ready ports ports' srcs srcs' = ⊥

  -- The encoders afterwards.
  abbrev pub encoders : List JackPort → List S → List S
  encoders [] srcs = srcs
  encoders (audio buf ∷ ports) [] = []
  encoders (audio buf ∷ ports) (e ∷ srcs) =
      (opus_encode e (take nframes buf) (n - cdo)).0 ∷ encoders ports srcs
  encoders (midi events ∷ ports) srcs = encoders ports srcs
  encoders (other ∷ ports) srcs = encoders ports srcs

  -- The receiver's ports and decoders, each decoder given what the sender's encoder wrote.
  abbrev pub decoded : List JackPort → List JackPort → List S → List S' → List JackPort × List S'
  decoded (audio buf ∷ ports) (audio old ∷ ports') (e ∷ srcs) (d ∷ srcs') =
      let q = opus_decode d (opus_encode e (take nframes buf) (n - cdo)).1 old nframes in
      let rest = decoded ports ports' srcs srcs' in (audio q.1 ∷ rest.0, q.0 ∷ rest.1)
  decoded (other ∷ ports) (other ∷ ports') srcs srcs' =
      let rest = decoded ports ports' srcs srcs' in (other ∷ rest.0, rest.1)
  decoded ports ports' srcs srcs' = ([], srcs')

  module _ (small : cdo ≤ n) (large : n < 2 ^ 16)
      (encodes : (e : S) (samples : List ℕ)
        → (length (opus_encode e samples (n - cdo)).1 ≤ n - cdo)
          × ((opus_encode e samples (n - cdo)).2
              ≡ length (opus_encode e samples (n - cdo)).1)) where
    room_lem : sub_size n cdo % 2 ^ 32 ≡ n - cdo
    room_lem = omega arith

    -- The length and the data of one port are read back.
    written :
        (part compressed : List ℕ) (returned : ℕ)
        → length part ≡ n
        → length compressed ≤ n - cdo
        → returned ≡ length compressed
        → (part' : List ℕ) × (length part' ≡ n)
          × ((put part cdo compressed >>= λ p. put p 0 (bytes_16 big returned)) ≡ some part')
          × (slice part' 0 cdo ≡ some (bytes_16 big returned))
          × (slice part' cdo (host_word big (bytes_16 big returned)) ≡ some compressed)
    written part compressed returned size fits count =
        let word = bytes_16 big returned in
        let two : length word ≡ 2 = unfold bytes_16 in refl in
        let room : cdo + length compressed ≤ length part = omega (arith, size, fits, small) in
        let p1 = splice part cdo compressed in
        let len1 : length p1 ≡ length part = length-splice part cdo compressed room in
        let room' : 0 + length word ≤ length p1 = omega (arith, two, len1, size, small) in
        let p2 = splice p1 0 word in
        let len2 : length p2 ≡ length p1 = length-splice p1 0 word room' in
        let number : host_word big word ≡ length compressed =
          host_word-bytes_16 big returned ∙ omega (arith, count, fits, large) in
        let front : slice p2 0 cdo ≡ some word =
          slice_lem p2 0 cdo (omega (arith, len2, len1, size, small))
          ∙ ap some (ap (λ k. take k (drop 0 p2)) (sym two) ∙ slice-splice p1 0 word room') in
        let back : slice p2 cdo (length compressed) ≡ some compressed =
          slice_lem p2 cdo (length compressed) (omega (arith, len2, len1, room))
          ∙ ap some (
              slice_congr p2 p1 cdo (length compressed) len2
                (λ j low high. get_elem?-splice_after p1 0 word room' j (omega (arith, two, low)))
              ∙ slice-splice part cdo compressed room) in
        (
          p2,
          omega (arith, len2, len1, size),
          rw (put_lem part cdo compressed room) (put_lem p1 0 word room'),
          front,
          ap (slice p2 cdo) number ∙ back,
        )

    first_lem : (buf : List ℕ) → nframes ≤ length buf → first nframes buf ≡ some (take nframes buf)
    unfolding first
    first_lem buf h = rw (le→leb nframes (length buf) h) refl

    one_sent :
        (part part' buf : List ℕ) (e : S) (srcs : List S)
        → nframes ≤ length buf
        → ((put part cdo (opus_encode e (take nframes buf) (n - cdo)).1 >>= λ p.
              put p 0 (bytes_16 big (opus_encode e (take nframes buf) (n - cdo)).2))
            ≡ some part')
        → port_to_opus opus_encode n nframes part (audio buf) (e ∷ srcs)
          ≡ some (part', audio buf, some (opus_encode e (take nframes buf) (n - cdo)).0)
    unfolding port_to_opus
    one_sent part part' buf e srcs full ran =
        let r = opus_encode e (take nframes buf) (n - cdo) in
        rw (first_lem buf full, room_lem)
          (sym (
              bind_assoc (put part cdo r.1) (λ p. put p 0 (bytes_16 big r.2))
                (λ q. some (q, audio buf, some r.0)))
            ∙ ap (λ t. t >>= λ q. some (q, audio buf, some r.0)) ran)

    -- All the ports.
    record AllRelayed (ports ports' : List JackPort) (srcs : List S) (srcs' : List S')
        (payload : List ℕ) : Type 0 where
      pub payload' : List ℕ
      pub sent :
          each_port (port_to_opus opus_encode n nframes) n payload ports srcs
          ≡ some (record { payload = payload'; ports = ports; srcs = encoders ports srcs })
      pub same_length : length payload' ≡ length payload
      pub got :
          each_port (opus_to_port opus_decode n nframes) n payload' ports' srcs'
          ≡ some (record {
            payload = payload';
            ports = (decoded ports ports' srcs srcs').0;
            srcs = (decoded ports ports' srcs srcs').1;
          })

    all_relayed :
        (ports ports' : List JackPort) (srcs : List S) (srcs' : List S') (payload : List ℕ)
        → Ready ports ports' srcs srcs'
        → length ports * n ≤ length payload
        → AllRelayed ports ports' srcs srcs' payload
    unfolding each_port port_to_opus opus_to_port
    all_relayed [] [] srcs srcs' payload ready room = record {
      payload' = payload;
      sent = refl;
      same_length = refl;
      got = refl;
    }
    all_relayed (audio buf ∷ ports) (audio old ∷ ports') (e ∷ srcs) (d ∷ srcs') payload
          (full, ready) room =
        let all = suc-mul (length ports) n in
        let rest =
          all_relayed ports ports' srcs srcs' (drop n payload) ready
            (omega (arith, room, all, length-drop n payload)) in
        let part = take n payload in
        let cut : slice payload 0 n ≡ some part =
          slice_lem payload 0 n (omega (arith, room, all)) in
        let fits : length part ≡ n = omega (arith, room, all, length-take n payload) in
        let r = opus_encode e (take nframes buf) (n - cdo) in
        let (short, count) = encodes e (take nframes buf) in
        let (part', fits', ran, front, back) = written part r.1 r.2 fits short count in
        let whole = length-append part' rest.payload' in
        let cut' : slice (part' ++ rest.payload') 0 n ≡ some part' =
          slice_lem (part' ++ rest.payload') 0 n (omega (arith, whole, fits'))
          ∙ ap some (take-append n part' rest.payload' fits') in
        record {
          payload' = part' ++ rest.payload';
          sent = rw (cut, one_sent part part' buf e srcs full ran, rest.sent) refl;
          same_length =
              omega (arith, room, all, whole, fits', rest.same_length, length-drop n payload);
          got = rw (cut', front, back, drop-append n part' rest.payload' fits', rest.got) refl;
        }
    all_relayed (other ∷ ports) (other ∷ ports') srcs srcs' payload ready room =
        let all = suc-mul (length ports) n in
        let rest =
          all_relayed ports ports' srcs srcs' (drop n payload) ready
            (omega (arith, room, all, length-drop n payload)) in
        let part = take n payload in
        let cut : slice payload 0 n ≡ some part =
          slice_lem payload 0 n (omega (arith, room, all)) in
        let fits : length part ≡ n = omega (arith, room, all, length-take n payload) in
        let whole = length-append part rest.payload' in
        let cut' : slice (part ++ rest.payload') 0 n ≡ some part =
          slice_lem (part ++ rest.payload') 0 n (omega (arith, whole, fits))
          ∙ ap some (take-append n part rest.payload' fits) in
        record {
          payload' = part ++ rest.payload';
          sent = rw (cut, rest.sent) refl;
          same_length =
              omega (arith, room, all, whole, fits, rest.same_length, length-drop n payload);
          got = rw (cut', drop-append n part rest.payload' fits, rest.got) refl;
        }
    all_relayed ports ports' srcs srcs' payload ready room = absurd ready

    -- Where the encoder keeps to its room and returns the number of bytes that it wrote, audio ports with
    -- a coder each are rendered into a payload with room for them, and this payload is rendered to the
    -- receiver's ports by giving each decoder the data that the sender's encoder wrote for the port.
    pub payload_to_ports-opus :
        (ports ports' : List JackPort) (srcs : List S) (srcs' : List S') (payload : List ℕ)
        → Ready ports ports' srcs srcs'
        → length ports * n ≤ length payload
        → (payload' : List ℕ) × (render_jack_ports_to_payload_opus opus_encode ports srcs nframes
              payload n
            ≡ some (record { payload = payload'; ports = ports; srcs = encoders ports srcs }))
          × (length payload' ≡ length payload)
          × (render_payload_to_jack_ports_opus opus_decode (some payload') n ports' srcs' nframes
              ≡ some (record {
                payload = payload';
                ports = (decoded ports ports' srcs srcs').0;
                srcs = (decoded ports ports' srcs srcs').1;
              }))
    unfolding render_jack_ports_to_payload_opus render_payload_to_jack_ports_opus
    payload_to_ports-opus ports ports' srcs srcs' payload ready room =
        let c = all_relayed ports ports' srcs srcs' payload ready room in
        (c.payload', c.sent, c.same_length, c.got)
