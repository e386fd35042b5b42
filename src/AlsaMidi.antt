-- ===== src/AlsaMidi.antt =====
-- The ALSA to JACK MIDI bridge of tools/alsa_midi: MIDI byte streams (midi_unpack.h, midi_pack.h).
pub mod Unpack
pub mod Pack
pub mod RoundTrip
pub mod Ports
pub mod Outgoing
mod Tests
