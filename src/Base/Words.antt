-- ===== src/Base/Words.antt =====
-- Machine words of the source as native numbers, with the wrap-around written out.
use Prim.Native.Nat.{ℕ, ◌+◌, ◌-◌, ◌%◌, ◌^◌}

-- Bytes of a `char` array or `std::string`, as numbers.
abbrev pub Byte : Type 0
Byte = ℕ

-- `size_t` has 64 bits: its sums and differences wrap.
abbrev pub size_mod : ℕ
size_mod = 2 ^ 64

abbrev pub u32_mod : ℕ
u32_mod = 2 ^ 32

abbrev pub add_size : ℕ → ℕ → ℕ
add_size a b = (a + b) % size_mod

abbrev pub sub_size : ℕ → ℕ → ℕ
sub_size a b = (a + size_mod - b) % size_mod

-- `std::vector<char>::max_size()`: no array and no string is longer.
abbrev pub max_size : ℕ
max_size = 2 ^ 63 - 1
