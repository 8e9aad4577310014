-- ===== src/Protocol/Wire.antt =====
-- Big-endian integers of src/protocol.rs: `put_u16`, `put_u32`, `put_i32` and `from_be_bytes`.
use ttyleport.Prelude.{
  ℕ, ◌+◌, ◌-◌, ◌*◌, ◌/◌, ◌%◌, ◌^◌, ◌<◌, [], ◌∷◌, Bytes, ℤ, pos, negsuc, ltb, if◌then◌else◌, ◌≡◌,
  arith,
}

unfoldable pub put_u16 : ℕ → Bytes
put_u16 n = n / 2 ^ 8 % 256 ∷ n % 256 ∷ []

unfoldable pub put_u32 : ℕ → Bytes
put_u32 n = n / 2 ^ 24 % 256 ∷ n / 2 ^ 16 % 256 ∷ n / 2 ^ 8 % 256 ∷ n % 256 ∷ []

-- The two's complement bit pattern of an i32, and the i32 of a bit pattern.
unfoldable pub i32_bits : ℤ → ℕ
i32_bits (pos n) = n
i32_bits (negsuc n) = 2 ^ 32 - 1 - n

unfoldable pub i32_of_bits : ℕ → ℤ
i32_of_bits w = if ltb w (2 ^ 31) then pos w else negsuc (2 ^ 32 - 1 - w)

unfoldable pub u16_from_be_bytes : ℕ → ℕ → ℕ
u16_from_be_bytes a b = a * 2 ^ 8 + b

unfoldable pub u32_from_be_bytes : ℕ → ℕ → ℕ → ℕ → ℕ
u32_from_be_bytes a b c d = a * 2 ^ 24 + b * 2 ^ 16 + c * 2 ^ 8 + d

abbrev pub IsI32 : ℤ → Type 0
IsI32 (pos n) = n < 2 ^ 31
IsI32 (negsuc n) = n < 2 ^ 31

pub u16_from_be_bytes-put_u16 :
    (n : ℕ) → n < 2 ^ 16 → u16_from_be_bytes (n / 2 ^ 8 % 256) (n % 256) ≡ n
unfolding u16_from_be_bytes
u16_from_be_bytes-put_u16 n h = omega arith

pub u32_from_be_bytes-put_u32 :
    (n : ℕ)
    → n < 2 ^ 32
    → u32_from_be_bytes (n / 2 ^ 24 % 256) (n / 2 ^ 16 % 256) (n / 2 ^ 8 % 256) (n % 256) ≡ n
unfolding u32_from_be_bytes
u32_from_be_bytes-put_u32 n h = omega arith

pub i32_bits-lt : (c : ℤ) → IsI32 c → i32_bits c < 2 ^ 32
unfolding i32_bits
i32_bits-lt (pos n) h = omega arith
i32_bits-lt (negsuc n) h = omega arith

pub i32_of_bits-i32_bits : (c : ℤ) → IsI32 c → i32_of_bits (i32_bits c) ≡ c
unfolding i32_of_bits i32_bits
i32_of_bits-i32_bits (pos n) h = ground arith
i32_of_bits-i32_bits (negsuc n) h = ground arith
