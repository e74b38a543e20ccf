-- ===== src/Common/Integers.antt =====
-- The integers over the native ℕ, for a C++ `int` that may pass below 0.
use Prim.Native.Nat.{ℕ, zero, suc, ◌-◌, ◌^◌}

pub data ℤ : Type 0 where
  pos negsuc : ℕ → ℤ

unfoldable pub increment : ℤ → ℤ
increment (pos n) = pos (suc n)
increment (negsuc zero) = pos zero
increment (negsuc (suc n)) = negsuc n

unfoldable pub decrement : ℤ → ℤ
decrement (pos zero) = negsuc zero
decrement (pos (suc n)) = pos n
decrement (negsuc n) = negsuc (suc n)

-- the conversion to a 64-bit `std::size_t`
unfoldable pub to_size : ℤ → ℕ
to_size (pos n) = n
to_size (negsuc n) = 2 ^ 64 - 1 - n
