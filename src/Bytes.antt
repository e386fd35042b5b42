-- ===== src/Bytes.antt =====
-- Memory as lists of bytes: `memcpy`, and the 32-bit words of the network.
pub mod Laws
use jack_example_tools.Base.{
  ℕ, ◌+◌, ◌*◌, ◌/◌, ◌%◌, ◌^◌, Option, none, some, List, [], ◌∷◌, ◌++◌, ◌&&◌, leb, ltb,
  if◌then◌else◌, ◌>>=◌, length, get_elem?, take, drop, set, Bool,
}

-- `src` laid over `dst` at an offset.
unfoldable pub splice : List ℕ → ℕ → List ℕ → List ℕ
splice dst off src = take off dst ++ (src ++ drop (off + length src) dst)

-- `memcpy (dst + off, src, n)`; `none` is an access outside one of the two blocks.
unfoldable pub memcpy : List ℕ → ℕ → List ℕ → ℕ → Option (List ℕ)
memcpy dst off src n =
    if leb (off + n) (length dst) && leb n (length src)
    then some (splice dst off (take n src))
    else none

-- The four bytes of `htonl (w)` in memory, on either byte order of the host.
unfoldable pub net32 : ℕ → List ℕ
net32 w = (w / 2 ^ 24 % 256) ∷ (w / 2 ^ 16 % 256) ∷ (w / 2 ^ 8 % 256) ∷ (w % 256) ∷ []

-- `ntohl` of the word at an offset; `none` is a read outside the block.
unfoldable pub read32 : List ℕ → ℕ → Option ℕ
read32 xs off = do
  a ← get_elem? xs off
  b ← get_elem? xs (off + 1)
  c ← get_elem? xs (off + 2)
  d ← get_elem? xs (off + 3)
  some (a * 2 ^ 24 + b * 2 ^ 16 + c * 2 ^ 8 + d)

-- `array[i] = v`; `none` is a write outside the array.
unfoldable pub store {ℓ} : {A : Type ℓ} → List A → ℕ → A → Option (List A)
store xs i v = if ltb i (length xs) then some (set xs i v) else none

-- The byte order of the host.
pub data ByteOrder : Type 0 where
  little big : ByteOrder

-- A word of the host in memory.
unfoldable pub word_bytes : ByteOrder → ℕ → List ℕ
word_bytes little w = (w % 256) ∷ (w / 2 ^ 8 % 256) ∷ (w / 2 ^ 16 % 256) ∷ (w / 2 ^ 24 % 256) ∷ []
word_bytes big w = net32 w
