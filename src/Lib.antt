-- ===== src/Lib.antt =====
-- Verification of the tools of this repository: their audio packets on the network, the bridge of
-- ALSA and JACK MIDI, and the conversion of samples.
--
-- Netjack (common/netjack_packet.c, common/netjack_packet.h) is the packet layer of the network
-- clients. A packet of `pkt_size` bytes, a header and the audio and MIDI data of one period, is cut
-- by `netjack_sendto` into datagrams of at most `mtu` bytes, each with the header and a fragment
-- number. On the other side `packet_cache_drain_socket` reads the datagrams of a socket into a
-- packet cache: `packet_cache_get_packet` finds or makes room for the packet of the frame, and
-- `cache_packet_add_fragment` puts the fragment in its place. The client asks which frames are
-- complete, retrieves one and releases it. The samples and MIDI events of the ports of a client are
-- rendered into the payload of a packet, one port behind the other, and out of it.
--
-- AlsaMidi (tools/alsa_midi) moves MIDI between ALSA and JACK. The bytes of a stream are packed with
-- running status and unpacked into events; the ports that ALSA announces reach the hash of a stream
-- by a queue, are marked dead when they go away, and each cycle walks the hash, processes the live
-- ports and hands the dead ones to the thread that deletes them.
--
-- Memops (common/memops.c) converts the samples of a channel, which are floating-point numbers,
-- to the integers of an audio interface and back, with or without dither, and fills and copies
-- channels. The channels of an interface are interleaved in memory, so that two samples of a channel
-- are a skip apart. Vector units convert four samples at a time.
--
-- Files:
--   Base, Base/...          shared names, Boolean tests, lists measured by native numbers
--   Machine, Bytes          conversions between `int`, `uint32_t` and `size_t`; blocks of bytes,
--                           `memcpy` and 32-bit words in network order
--   Netjack/Header          the packet header, packet_header_hton, packet_header_ntoh,
--                           get_sample_size
--   Netjack/Packet          struct _cache_packet; cache_packet_reset, _set_framecnt, _add_fragment,
--                           _is_complete
--   Netjack/Send            netjack_sendto
--   Netjack/Transfer        the datagrams of one packet, received
--   Netjack/Cache           struct _packet_cache; get_packet, get_free_packet, get_oldest_packet,
--                           reset_master_address, clear_old_packets, retreive_packet_pointer,
--                           release_packet
--   Netjack/Cache/New       packet_cache_new
--   Netjack/Cache/Query     get_fill, the next and the highest available frame, find_latency
--   Netjack/Cache/Socket    packet_cache_drain_socket; with Retrieved, the whole way of a packet from
--                           netjack_sendto to packet_cache_retreive_packet_pointer
--   Netjack/Midi            encode_midi_buffer, decode_midi_buffer
--   Netjack/Render          render_payload_to_jack_ports_float, render_jack_ports_to_payload_float
--   Netjack/Render/Integer  the same for 16 and 8 bits; render_payload_to_jack_ports and
--                           render_jack_ports_to_payload
--   Netjack/Render/Opus     render_payload_to_jack_ports_opus, render_jack_ports_to_payload_opus
--   Netjack/Relay           a period rendered, sent, received and rendered
--   AlsaMidi/Unpack         midi_unpack.h: midi_unpack_init, _reset, _buf
--   AlsaMidi/Pack           midi_pack.h: midi_pack_reset, midi_pack_event
--   AlsaMidi/RoundTrip      the messages of MIDI, packed and unpacked
--   AlsaMidi/Ports          port_hash.c; a2j_port_setdead of port.c; a2j_add_ports and
--                           a2j_jack_process_internal of alsa_midi.c
--   AlsaMidi/Outgoing       a2j_process_outgoing of alsa_midi.c
--   Memops/Float            the macros float_16 and so on, clip, float_24_sse, float_24_neon,
--                           float_16_neon; floating-point arithmetic as a parameter
--   Memops/Loops            the loops over samples, one by one and by fours
--   Memops/Out              sample_move_d32_sS and the other writers
--   Memops/Out/Dither       fast_rand, sample_move_dither_rect_d16_sS and the other dithered writers
--   Memops/In               sample_move_dS_s32 and the other readers
--   Memops/Interleave       memset_interleave, memcpy_fake, memcpy_interleave_d16_s16 and so on
--   Memops/Range, Words,    bounds of the macros, bytes read back, writers and readers together,
--   RoundTrip, Vector       the vector variants
-- The child modules of each hold its proofs; Tests hold the examples at concrete data.
--
-- Correspondence. A C function is a function of the same name, in lower case, that takes the values
-- of its objects and returns the new ones. Pointers into a block are offsets into the list of its bytes, and an
-- access outside a block, which C leaves undefined, is `none`. An `int` is kept as its bit pattern
-- below 2 ^ 32; the conversions to `size_t` and back and every wrap-around are written out.
-- A pointer to a port is its index in the list of the ports created, and a chain of the hash the list
-- of the pointers that `next` links. Where the unpacker asserts, a failed assertion is `none`.
-- Code outside the repository is a parameter: `malloc` is a partial function to blocks, a socket is
-- the list of what `recvfrom` returns, a JACK MIDI port is the list of its events, a ring buffer is
-- a queue with its capacity, or the lengths of its two free parts, a resampler or a codec a
-- function from its state and input to its new state and output. The round over the ports takes as
-- a parameter what the processing of one port adds to the count of events.
--
-- `float` and `double` are the record Floats of their operations, and what the proofs need of them,
-- the order of the numbers and integers of up to 24 bits being exact, is the record FloatLaws; the
-- tests instantiate both with integers. The preprocessor's choices by host are the type Target. A
-- byte of a variable that the code does not set is an argument.
--
-- Fuel. `netjack_sendto` runs on `pkt_size` rounds and `decode_midi_buffer` on `size + 1`; a round
-- moves on by one byte or one word at least. The fills and copies of Memops run on any number of
-- rounds above the number of units; a count of bytes that the size of a unit does not divide never
-- reaches 0 before it wraps around. Running out is `none`, as a fault is, so a theorem
-- that such a function returns `some` shows that the fuel is enough.
--
-- Not modelled: the dispatch by bit depth of a build with Opus; the copies of floating-point samples
-- and the alignment of memory in common/memops.c; the waiting for a socket; the threads of the
-- bridge, and the creation and the freeing of its ports; the other tools and the example clients,
-- whose work is calls of the JACK and ALSA libraries.
pub mod Base
pub mod Machine
pub mod Bytes
pub mod AlsaMidi
pub mod Memops
pub mod Netjack
