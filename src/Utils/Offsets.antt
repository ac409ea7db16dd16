-- ===== src/Utils/Offsets.antt =====
-- The four bytes of a call's offset, which convert_long_2_vec_uint8 writes.
use ocolos_public.Prelude.{
  ℕ, suc, ◌+◌, ◌-◌, ◌*◌, ◌/◌, ◌%◌, ◌^◌, ◌<◌, ◌≡◌, ◌↔◌, [], ◌∷◌, arith, Bytes, ℤ, pos, negsuc,
  wrap_ℤ, length, All,
}
use ocolos_public.Utils.{convert_long_2_vec_uint8}

-- The number that bytes stand for, the lowest first.
abbrev pub le_value : Bytes → ℕ
le_value [] = 0
le_value (b ∷ bs) = b + 256 * le_value bs

-- The bytes of a non-negative offset, lowest first.
pub convert_long_2_vec_uint8-pos :
    (n : ℕ)
    → convert_long_2_vec_uint8 (pos n)
      ≡ n % 256 ∷ n / 256 % 256 ∷ n / 65536 % 256 ∷ n / 16777216 % 256 ∷ []
unfolding convert_long_2_vec_uint8
convert_long_2_vec_uint8-pos n = ground arith

-- The bytes of an offset that is not negative, lowest first, stand for it modulo 2^32.
pub le_value-pos : (n : ℕ) → le_value (convert_long_2_vec_uint8 (pos n)) ≡ wrap_ℤ (2 ^ 32) (pos n)
le_value-pos n = rw convert_long_2_vec_uint8-pos (omega arith)

-- The same bytes below zero: each digit of the absolute value is negated alone, with no borrow.
pub convert_long_2_vec_uint8-negsuc :
    (m : ℕ)
    → convert_long_2_vec_uint8 (negsuc m)
      ≡ (256 - suc m % 256) % 256
        ∷ (256 - suc m / 256 % 256) % 256
        ∷ (256 - suc m / 65536 % 256) % 256
        ∷ (256 - suc m / 16777216 % 256) % 256
        ∷ []
unfolding convert_long_2_vec_uint8
convert_long_2_vec_uint8-negsuc m = ground arith

-- The bytes of a negative offset -(m + 1) stand for its 32-bit two's complement exactly when
-- 2^24 divides it; for every other negative offset they stand for another number.
pub le_value-negsuc :
    (m : ℕ)
    → (le_value (convert_long_2_vec_uint8 (negsuc m)) ≡ wrap_ℤ (2 ^ 32) (negsuc m))
      ↔ (suc m % 2 ^ 24 ≡ 0)
le_value-negsuc m = rw convert_long_2_vec_uint8-negsuc ((λ h. omega arith), (λ h. omega arith))

-- Four bytes, for every offset.
pub convert_long_2_vec_uint8_shape :
    (offset : ℤ)
    → (length (convert_long_2_vec_uint8 offset) ≡ 4)
      × All (λ b. b < 256) (convert_long_2_vec_uint8 offset)
convert_long_2_vec_uint8_shape (pos n) = rw convert_long_2_vec_uint8-pos (omega arith)
convert_long_2_vec_uint8_shape (negsuc m) = rw convert_long_2_vec_uint8-negsuc (omega arith)
