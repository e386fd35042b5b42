-- ===== src/AlsaMidi/RoundTrip/Whole.antt =====
-- All messages, packed and unpacked.
use jack_example_tools.Base.{
  ℕ, suc, ◌+◌, ◌-◌, ◌≡◌, refl, sym, inl, inr, arith, true, false, some, List, [], ◌∷◌, map, ◌==◌,
  ◌&&◌, leb, ltb, Bool-cases, length, get_or, All, ==_iff,
}
use jack_example_tools.Netjack.Midi.{MidiEvent}
use jack_example_tools.AlsaMidi.Unpack.{
  Unpack, midi_unpack_init, midi_system_len, system_need, max_msg,
}
use jack_example_tools.AlsaMidi.Pack.{Pack, midi_pack_event, midi_pack_reset, without_status}
use jack_example_tools.AlsaMidi.RoundTrip.{
  IsMessage, voice, system, exclusive, realtime, relay, heard,
}
use jack_example_tools.AlsaMidi.RoundTrip.Sync.{Sync}
use jack_example_tools.AlsaMidi.RoundTrip.Message.{
  Unpacked, voice_bytes, voice_whole, realtime_byte, system_single, system_bytes, sysex,
}

system_len_need :
    (u : Unpack) (s n : ℕ) → 1 + n ≡ get_or midi_system_len (s - 0xF0) 0 → system_need u s ≡ 1 + n
unfolding system_need
system_len_need u s n e = rw (← e) (ground arith)

-- A message that is packed whole, the status after it being `rs`.
abbrev Packed : ℕ → Pack → Unpack → ℕ → List ℕ → Type 0
Packed size p u time buffer =
    let r = midi_pack_event p (record { time = time; buffer = buffer }) in
    Unpacked size r.0.running_status u r.1.buffer time buffer

module _ {size : ℕ} (p : Pack) (u : Unpack) (time : ℕ) (y : Sync size p u) where
  message_lem : (buffer : List ℕ) → IsMessage size buffer → Packed size p u time buffer
  unfolding midi_pack_event without_status
  message_lem _ (voice s xs low high ok len) =
      let kind : (leb 0x80 s && ltb s 0xF0) ≡ true = ground arith in
      elim (Bool-cases (s == p.running_status)) [
        | inl same ↦
            let is : s ≡ p.running_status = (==_iff s p.running_status).0 same in
            let m = y.status (λ e. omega (arith, e, is)) in
            rw (kind, same)
              (rw is (voice_bytes time p.running_status xs u m.2 m.0 m.1 ok (rw is at len)))
        | inr other ↦ rw (kind, other) (voice_whole time s xs u y.unpack y.size_eq low high ok len)
      ]
  message_lem _ (system s [] low high ok len) =
      let kind : (leb 0x80 s && ltb s 0xF0) ≡ false = ground arith in
      let most : ltb s 0xF8 ≡ true = ground arith in
      rw (kind, most)
        (system_single time s u y.unpack y.size_eq low high (system_len_need u s 0 len))
  message_lem _ (system s (x ∷ xs) low high ok len) =
      let kind : (leb 0x80 s && ltb s 0xF0) ≡ false = ground arith in
      let most : ltb s 0xF8 ≡ true = ground arith in
      rw (kind, most)
        (system_bytes time s (x ∷ xs) u y.unpack y.size_eq low high ok (omega arith)
          (sym (system_len_need u s (suc (length xs)) len)))
  message_lem _ (exclusive xs ok room) = sysex time xs u y.unpack y.size_eq ok room
  message_lem _ (realtime b h) =
      let no : (leb 0x80 b && ltb b 0xF0) ≡ false = ground arith in
      let real : ltb b 0xF8 ≡ false = ground arith in
      rw (no, real) (realtime_byte time p.running_status b u y h)

module _ {size : ℕ} where
  relay_lem :
      (p : Pack) (u : Unpack) (es : List MidiEvent)
      → Sync size p u
      → All (λ e. IsMessage size e.buffer) es
      → relay p u es ≡ some (map heard es)
  unfolding relay
  relay_lem p u [] y ok = refl
  relay_lem p u (e ∷ es) y (ok, oks) =
      let (u', ran, y') = message_lem p u e.time y e.buffer ok in
      rw (ran, relay_lem (midi_pack_event p e).0 u' es y' oks) refl

-- Complete messages of at most 1024 bytes, packed from a reset packer on and unpacked from a
-- fresh unpacker on, come out as they were, with their times; only a note on of velocity 0 has
-- become a note off.
pub relay-messages :
    (p : Pack) (bytes : List ℕ) (es : List MidiEvent)
    → length bytes ≡ max_msg
    → All (λ e. IsMessage max_msg e.buffer) es
    → relay (midi_pack_reset p) (midi_unpack_init bytes) es ≡ some (map heard es)
unfolding midi_pack_reset midi_unpack_init
relay-messages p bytes es size ok =
    relay_lem _ _ es
      (record {
        unpack = record {
          before = omega arith;
          two = omega arith;
          need_size = omega arith;
          three = omega arith;
          size_eq = sym size;
        };
        size_eq = refl;
        status = λ c. absurd (c refl);
      })
      ok
