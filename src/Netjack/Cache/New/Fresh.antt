-- ===== src/Netjack/Cache/New/Fresh.antt =====
-- What `packet_cache_new` creates.
use jack_example_tools.Base.{ℕ, ◌≡◌, false, Option, some, List, length}
use jack_example_tools.Netjack.Packet.{CachePacket}
use jack_example_tools.Netjack.Packet.Valid.{IsConfig, fragment_count}
use jack_example_tools.Netjack.Cache.New.{Stale}

module _ (malloc : ℕ → ℕ → Option (List ℕ)) (stale : Stale) where
  -- `malloc` returns blocks of the size asked for.
  module _
      (malloc_size : (n size : ℕ) (block : List ℕ)
        → malloc n size ≡ some block
        → length block ≡ size)
      (pkt_size mtu : ℕ) (cfg : IsConfig pkt_size mtu) where
    abbrev fresh : List ℕ → List ℕ → CachePacket
    fresh flags buf = record {
      valid = false;
      num_fragments = fragment_count pkt_size mtu;
      packet_size = pkt_size;
      mtu = mtu;
      recv_timestamp = stale.timestamp;
      framecnt = 0;
      fragment_array = flags;
      packet_buf = buf;
    }
