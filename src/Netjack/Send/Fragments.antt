-- ===== src/Netjack/Send/Fragments.antt =====
-- What `netjack_sendto` sends: datagram `k` carries the header with its number, and block `k`.
use jack_example_tools.Base.{
  ℕ, ◌+◌, ◌-◌, ◌*◌, ◌≤◌, ◌<◌, ◌≡◌, refl, ◌∙◌, ap, List, some, arith, min, length, drop, take,
  length-drop, length-take, get_elem?, get_elem?-take, get_elem?-drop,
}
use jack_example_tools.Bytes.{splice, memcpy, net32}
use jack_example_tools.Bytes.Laws.{
  memcpy_lem, length-splice, get_elem?-splice_before, get_elem?-splice_in, get_elem?-splice_after,
}
use jack_example_tools.Netjack.Packet.{header_size, fragment_nr_at}
use jack_example_tools.Netjack.Send.{put_fragment_nr}

-- The bytes of the packet after the header that datagram `k` carries.
abbrev pub block_size : ℕ → ℕ → ℕ → ℕ
block_size pkt_size mtu k =
    min (mtu - header_size) (pkt_size - (header_size + k * (mtu - header_size)))

pub record IsFragment (packet : List ℕ) (pkt_size mtu k : ℕ) (gram : List ℕ) : Type 0 where
  pub size : length gram ≡ header_size + block_size pkt_size mtu k
  pub header : (i : ℕ) → i < fragment_nr_at → get_elem? gram i ≡ get_elem? packet i
  pub number : (i : ℕ) → i < 4 → get_elem? gram (fragment_nr_at + i) ≡ get_elem? (net32 k) i
  pub block :
      (i : ℕ)
      → i < block_size pkt_size mtu k
      → get_elem? gram (header_size + i)
        ≡ get_elem? packet (header_size + k * (mtu - header_size) + i)

length-net32 : (w : ℕ) → length (net32 w) ≡ 4
unfolding net32
length-net32 w = refl

-- A buffer with a fragment number written into its header.
pub numbered : List ℕ → ℕ → List ℕ
numbered xs w = splice xs fragment_nr_at (net32 w)

-- What the write does where the buffer is long enough.
module _ (xs : List ℕ) (w : ℕ) (long : header_size ≤ length xs) where
  pub put_fragment_nr_lem : put_fragment_nr xs w ≡ some (numbered xs w)
  unfolding put_fragment_nr numbered net32
  put_fragment_nr_lem = rw (memcpy_lem xs fragment_nr_at (net32 w) 4 (omega arith) (omega arith))

  pub length-numbered : length (numbered xs w) ≡ length xs
  unfolding numbered
  length-numbered = length-splice xs fragment_nr_at (net32 w) (omega (arith, length-net32 w))

  pub numbered_before : (i : ℕ) → i < fragment_nr_at → get_elem? (numbered xs w) i ≡ get_elem? xs i
  unfolding numbered
  numbered_before i h =
      get_elem?-splice_before xs fragment_nr_at (net32 w) (omega (arith, length-net32 w)) i h

  pub numbered_at :
      (i : ℕ) → i < 4 → get_elem? (numbered xs w) (fragment_nr_at + i) ≡ get_elem? (net32 w) i
  unfolding numbered
  numbered_at i h =
      get_elem?-splice_in xs fragment_nr_at (net32 w) (omega (arith, length-net32 w))
        (fragment_nr_at + i) (omega arith) (omega (arith, length-net32 w))
      ∙ ap (get_elem? (net32 w)) (omega arith)

  pub numbered_after : (i : ℕ) → header_size ≤ i → get_elem? (numbered xs w) i ≡ get_elem? xs i
  unfolding numbered
  numbered_after i h =
      get_elem?-splice_after xs fragment_nr_at (net32 w) (omega (arith, length-net32 w)) i
        (omega (arith, length-net32 w))

-- `tx_packet` when it is handed to `sendto`: header, number and `n` bytes of the packet from `pos`.
pub record Loaded (packet : List ℕ) (room k pos n : ℕ) (tx : List ℕ) : Type 0 where
  pub size : length tx ≡ room
  pub header : (i : ℕ) → i < fragment_nr_at → get_elem? tx i ≡ get_elem? packet i
  pub number : (i : ℕ) → i < 4 → get_elem? tx (fragment_nr_at + i) ≡ get_elem? (net32 k) i
  pub block : (i : ℕ) → i < n → get_elem? tx (header_size + i) ≡ get_elem? packet (pos + i)

abbrev pub HasHeader : List ℕ → List ℕ → Type 0
HasHeader packet tx = (i : ℕ) → i < fragment_nr_at → get_elem? tx i ≡ get_elem? packet i

module _ (packet tx : List ℕ) (k pos n : ℕ) (room : header_size + n ≤ length tx)
    (source : pos + n ≤ length packet) (head : HasHeader packet tx) where
  part : List ℕ
  part = take n (drop pos packet)

  length-part : length part ≡ n
  unfolding part
  length-part = omega (arith, length-take n (drop pos packet), length-drop pos packet)

  get_elem?-part : (i : ℕ) → i < n → get_elem? part i ≡ get_elem? packet (pos + i)
  unfolding part
  get_elem?-part i h = get_elem?-take n (drop pos packet) i h ∙ get_elem?-drop pos packet i

  -- In the loop the number is written first.
  pub number_then_block :
      (t : List ℕ) × (memcpy (numbered tx k) header_size (drop pos packet) n ≡ some t)
      × Loaded packet (length tx) k pos n t
  unfolding part
  number_then_block =
      let long : header_size + length part ≤ length (numbered tx k) =
        omega (arith, length-numbered tx k (omega arith), length-part) in
      (
        splice (numbered tx k) header_size part,
        memcpy_lem (numbered tx k) header_size (drop pos packet) n (omega (arith, length-part))
            (omega (arith, length-drop pos packet)),
        record {
          size =
              length-splice (numbered tx k) header_size part long
              ∙ length-numbered tx k (omega arith);
          header = λ i h.
              get_elem?-splice_before (numbered tx k) header_size part long i (omega arith)
              ∙ numbered_before tx k (omega arith) i h
              ∙ head i h;
          number = λ i h.
              get_elem?-splice_before (numbered tx k) header_size part long (fragment_nr_at + i)
                (omega arith)
              ∙ numbered_at tx k (omega arith) i h;
          block = λ i h.
              get_elem?-splice_in (numbered tx k) header_size part long (header_size + i)
                (omega arith) (omega (arith, length-part))
              ∙ ap (get_elem? part) (omega arith)
              ∙ get_elem?-part i h;
        },
      )

  -- For the last datagram it is written last.
  pub block_then_number :
      (t u : List ℕ) × (memcpy tx header_size (drop pos packet) n ≡ some t)
      × (put_fragment_nr t k ≡ some u)
      × Loaded packet (length tx) k pos n u
  unfolding part
  block_then_number =
      let long : header_size + length part ≤ length tx = omega (arith, length-part) in
      let t = splice tx header_size part in
      let same : length t ≡ length tx = length-splice tx header_size part long in
      (
        t,
        numbered t k,
        memcpy_lem tx header_size (drop pos packet) n room (omega (arith, length-drop pos packet)),
        put_fragment_nr_lem t k (omega arith),
        record {
          size = length-numbered t k (omega arith) ∙ same;
          header = λ i h.
              numbered_before t k (omega arith) i h
              ∙ get_elem?-splice_before tx header_size part long i (omega arith)
              ∙ head i h;
          number = λ i h. numbered_at t k (omega arith) i h;
          block = λ i h.
              numbered_after t k (omega arith) (header_size + i) (omega arith)
              ∙ get_elem?-splice_in tx header_size part long (header_size + i) (omega arith)
                  (omega (arith, length-part))
              ∙ ap (get_elem? part) (omega arith)
              ∙ get_elem?-part i h;
        },
      )

-- The first bytes of a loaded buffer are the datagram.
pub Loaded-IsFragment :
    {packet tx : List ℕ} {room : ℕ} (pkt_size mtu k n : ℕ)
    → Loaded packet room k (header_size + k * (mtu - header_size)) n tx
    → header_size + n ≤ room
    → n ≡ block_size pkt_size mtu k
    → IsFragment packet pkt_size mtu k (take (header_size + n) tx)
Loaded-IsFragment {tx} pkt_size mtu k n l fits e = record {
  size = omega (arith, length-take (header_size + n) tx, l.size);
  header = λ i h. get_elem?-take (header_size + n) tx i (omega arith) ∙ l.header i h;
  number =
      λ i h. get_elem?-take (header_size + n) tx (fragment_nr_at + i) (omega arith) ∙ l.number i h;
  block = λ i h.
      get_elem?-take (header_size + n) tx (header_size + i) (omega arith) ∙ l.block i (omega arith);
}
