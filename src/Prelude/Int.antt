-- ===== src/Prelude/Int.antt =====
-- Signed integers over the native numbers, under the library's names (its ℤ stands on the unary ℕ).
use Prim.Native.Nat.{ℕ, suc, ◌-◌, ◌/◌, ◌%◌}
use ocolos_public.Prelude.Tests.{leb, if◌then◌else◌}

-- `negsuc n` is -(n + 1).
pub data ℤ : Type 0 where
  pos : ℕ → ℤ
  negsuc : ℕ → ℤ

-- -n, as an integer.
abbrev pub neg_ℕ : ℕ → ℤ
neg_ℕ n = if leb n 0 then pos 0 else negsuc (n - 1)

-- a - b, as an integer.
abbrev pub sub_ℕ : ℕ → ℕ → ℤ
sub_ℕ a b = if leb b a then pos (a - b) else negsuc (b - a - 1)

-- C++ division and remainder by a positive number: both truncate towards zero.
abbrev pub tdiv : ℤ → ℕ → ℤ
tdiv (pos n) d = pos (n / d)
tdiv (negsuc n) d = neg_ℕ (suc n / d)

abbrev pub trem : ℤ → ℕ → ℤ
trem (pos n) d = pos (n % d)
trem (negsuc n) d = neg_ℕ (suc n % d)

-- The conversion to an unsigned type with `m` values: the value modulo `m`.
abbrev pub wrap_ℤ : ℕ → ℤ → ℕ
wrap_ℤ m (pos n) = n % m
wrap_ℤ m (negsuc n) = (m - suc n % m) % m
