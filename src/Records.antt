-- ===== src/Records.antt =====
-- The binary files between the tracer and the tracee: records of an address, a length and as many
-- bytes of machine code, written by fwrite and read by fread on a little-endian machine.
pub mod Laws
use ocolos_public.Prelude.{
  ℕ, zero, suc, ◌+◌, ◌*◌, ◌/◌, ◌%◌, ◌^◌, ◌<◌, List, [], ◌∷◌, ◌++◌, Option, none, some, Bytes,
  length, All,
}

-- The bytes of an integer of `size` bytes.
unfoldable pub le_bytes : ℕ → ℕ → Bytes
le_bytes zero n = []
le_bytes (suc size) n = n % 256 ∷ le_bytes size (n / 256)

-- `fwrite(&n, sizeof(long), 1, file)`.
unfoldable pub put_long : ℕ → Bytes
unfolding le_bytes
put_long n = le_bytes 8 n

-- `fread(&n, sizeof(long), 1, file)`: the value and the rest, or `none` where it returns 0.
unfoldable pub get_long : Bytes → Option (ℕ × Bytes)
get_long (a ∷ b ∷ c ∷ d ∷ e ∷ f ∷ g ∷ h ∷ rest) =
    some (a + 256 * (b + 256 * (c + 256 * (d + 256 * (e + 256 * (f + 256 * (g + 256 * h)))))), rest)
get_long _ = none

pub record Record : Type 0 where
  pub address : ℕ
  pub code : Bytes

unfoldable pub write_record : Record → Bytes
unfolding put_long
write_record r = put_long r.address ++ (put_long (length r.code) ++ r.code)

unfoldable pub write_records : List Record → Bytes
unfolding write_record
write_records [] = []
write_records (r ∷ rs) = write_record r ++ write_records rs

-- A record that a file can hold: some code, and numbers that are non-negative longs.
pub record IsRecord (r : Record) : Type 0 where
  pub some_code : 0 < length r.code
  pub fits : r.address + length r.code + 8192 < 2 ^ 63
  pub are_bytes : All (λ b. b < 256) r.code
