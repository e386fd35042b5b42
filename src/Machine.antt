-- ===== src/Machine.antt =====
-- The C integer conversions that the code relies on, on a host with 32-bit `int` and 64-bit
-- `size_t`. An `int` is carried as its bit pattern, a number below 2 ^ 32.
use jack_example_tools.Base.{ℕ, ◌+◌, ◌-◌, ◌*◌, ◌%◌, ◌^◌, ltb, if◌then◌else◌}

-- An `int` as an operand of `size_t` arithmetic: sign extension.
abbrev pub size_of_int : ℕ → ℕ
size_of_int w = if ltb w (2 ^ 31) then w else w + 2 ^ 64 - 2 ^ 32

-- A `size_t` stored into an `int`.
abbrev pub int_of_size : ℕ → ℕ
int_of_size n = n % 2 ^ 32

-- The number of rounds of `for (i = 0; i < n; i++)` with `int i, n`.
abbrev pub rounds : ℕ → ℕ
rounds w = if ltb w (2 ^ 31) then w else 0

-- `size_t` and `uint32_t` arithmetic.
abbrev pub sub_size : ℕ → ℕ → ℕ
sub_size a b = (a + 2 ^ 64 - b) % 2 ^ 64

abbrev pub add_size : ℕ → ℕ → ℕ
add_size a b = (a + b) % 2 ^ 64

abbrev pub add_u32 : ℕ → ℕ → ℕ
add_u32 a b = (a + b) % 2 ^ 32

abbrev pub sub_u32 : ℕ → ℕ → ℕ
sub_u32 a b = (a + 2 ^ 32 - b) % 2 ^ 32

abbrev pub mul_u32 : ℕ → ℕ → ℕ
mul_u32 a b = (a * b) % 2 ^ 32
