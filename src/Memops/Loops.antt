-- ===== src/Memops/Loops.antt =====
-- The loops of common/memops.c over samples in memory: `dst` and `src` move on by a skip that is the
-- distance of two samples of the channel. `none` is an access outside a block.
pub mod Strided
pub mod Unrolled
use jack_example_tools.Base.{
  ℕ, zero, suc, ◌+◌, ◌*◌, ◌/◌, ◌%◌, Option, none, some, List, [], ◌∷◌, ◌++◌, ◌>>=◌, ◌==◌,
  if◌then◌else◌, length, take, drop,
}
use jack_example_tools.Bytes.{ByteOrder, little, big, memcpy}
use jack_example_tools.Netjack.Midi.{slice}

-- The hosts that the code distinguishes: a plain one, one with SSE2, one with SSE2 and Solaris, one
-- with NEON. The vector units are on hosts of little-endian words.
pub data Target : Type 0 where
  plain : ByteOrder → Target
  sse2 sun neon : Target

abbrev pub order_of : Target → ByteOrder
order_of (plain order) = order
order_of sse2 = little
order_of sun = little
order_of neon = little

unfoldable pub put : List ℕ → ℕ → List ℕ → Option (List ℕ)
put dst pos bytes = memcpy dst pos bytes (length bytes)

module _ {ℓ} {F : Type ℓ} where
  -- `while (nsamples--)`: a sample is converted to bytes, and these are stored.
  unfoldable pub write_loop : (F → List ℕ) → ℕ → List ℕ → ℕ → List F → ℕ → Option (List ℕ)
  write_loop conv zero dst pos src skip = some dst
  write_loop conv (suc n) dst pos [] skip = none
  write_loop conv (suc n) dst pos (s ∷ src) skip = do
    dst ← put dst pos (conv s)
    write_loop conv n dst (pos + skip) src skip

  -- Bytes are converted to samples, which are stored one behind the other.
  unfoldable pub read_loop : ℕ → (List ℕ → F) → ℕ → List ℕ → ℕ → ℕ → Option (List F)
  read_loop size conv zero src pos skip = some []
  read_loop size conv (suc n) src pos skip = do
    bytes ← slice src pos size
    rest ← read_loop size conv n src (pos + skip) skip
    some (conv bytes ∷ rest)

  -- `while (unrolled--)`: four samples at a time.
  unfoldable pub write_groups :
      (List ℕ → ℕ → List F → Option (List ℕ)) → ℕ → List ℕ → ℕ → List F → ℕ → Option (List ℕ)
  write_groups group zero dst pos src skip = some dst
  write_groups group (suc n) dst pos src skip = do
    dst ← group dst pos src
    write_groups group n dst (pos + 4 * skip) (drop 4 src) skip

  -- The samples by fours, and the last ones one by one.
  unfoldable pub write_unrolled :
      (List ℕ → ℕ → List F → Option (List ℕ))
      → (F → List ℕ)
      → ℕ
      → List ℕ
      → ℕ
      → List F
      → ℕ
      → Option (List ℕ)
  write_unrolled group conv n dst pos src skip = do
    dst ← write_groups group (n / 4) dst pos src skip
    write_loop conv (n % 4) dst (pos + n / 4 * (4 * skip)) (drop (n / 4 * 4) src) skip

  -- Four samples are converted; their lanes are stored in one piece where they adjoin.
  unfoldable pub store_lanes : ℕ → (F → List ℕ) → ℕ → List ℕ → ℕ → List F → Option (List ℕ)
  store_lanes size conv skip dst pos (a ∷ b ∷ c ∷ d ∷ src) =
      if skip == size
      then put dst pos (conv a ++ (conv b ++ (conv c ++ conv d)))
      else write_loop conv 4 dst pos (a ∷ b ∷ c ∷ d ∷ []) skip
  store_lanes size conv skip dst pos src = none

  -- `while (unrolled--)`, and the last samples one by one.
  unfoldable pub read_groups : (List ℕ → ℕ → Option (List F)) → ℕ → List ℕ → ℕ → ℕ → Option (List F)
  read_groups group zero src at skip = some []
  read_groups group (suc n) src at skip = do
    samples ← group src at
    rest ← read_groups group n src (at + 4 * skip) skip
    some (samples ++ rest)

  unfoldable pub read_unrolled :
      (List ℕ → ℕ → Option (List F)) → ℕ → (List ℕ → F) → ℕ → List ℕ → ℕ → ℕ → Option (List F)
  read_unrolled group size conv n src at skip = do
    samples ← read_groups group (n / 4) src at skip
    rest ← read_loop size conv (n % 4) src (at + n / 4 * (4 * skip)) skip
    some (samples ++ rest)

  -- Four lanes are loaded: in one piece where they adjoin, every other one of eight where the skip
  -- is twice the size, else one by one.
  unfoldable pub load_lanes : ℕ → (List ℕ → F) → ℕ → List ℕ → ℕ → Option (List F)
  load_lanes size conv skip src at =
      if skip == size
      then (do
        bytes ← slice src at (4 * size)
        some (
            conv (take size bytes)
            ∷ conv (take size (drop size bytes))
            ∷ conv (take size (drop (2 * size) bytes))
            ∷ conv (take size (drop (3 * size) bytes))
            ∷ []))
      else if skip == 2 * size
      then (do
        bytes ← slice src at (8 * size)
        some (
            conv (take size bytes)
            ∷ conv (take size (drop (2 * size) bytes))
            ∷ conv (take size (drop (4 * size) bytes))
            ∷ conv (take size (drop (6 * size) bytes))
            ∷ []))
      else read_loop size conv 4 src at skip
