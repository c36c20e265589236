-- ===== src/Prelude/Words.antt =====
-- Unsigned 64-bit words (`size_t`, `uint64_t`) with their wrap-around.
use Prim.Native.Nat.{ℕ, ◌+◌, ◌-◌, ◌%◌, ◌^◌}

abbrev pub add64 : ℕ → ℕ → ℕ
add64 a b = (a + b) % 2 ^ 64

-- `-` stops at 0, so the modulus is added first.
abbrev pub sub64 : ℕ → ℕ → ℕ
sub64 a b = (a + 2 ^ 64 - b % 2 ^ 64) % 2 ^ 64
