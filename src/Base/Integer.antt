-- ===== src/Base/Integer.antt =====
-- The signed integers of the configuration framework, and their conversion to `uint32_t`.
use Prim.Native.Nat.{ℕ, ◌-◌, ◌%◌, ◌^◌}

-- `negsuc n` stands for - (n + 1).
pub data ℤ : Type 0 where
  pos negsuc : ℕ → ℤ

-- The value modulo 2 ^ 32.
unfoldable pub to_uint32 : ℤ → ℕ
to_uint32 (pos n) = n % 2 ^ 32
to_uint32 (negsuc n) = 2 ^ 32 - 1 - n % 2 ^ 32
