-- ===== src/Tests/Elf.antt =====
-- elf-extract/src/lib.rs on a binary with one function and one v-table.
use ocolos_public.Prelude.{
  ℕ, ◌≡◌, refl, true, false, inl, inr, [], ◌∷◌, some, Bytes, codes, Safe, subst, lookup, assign,
  arith, done,
}
use ocolos_public.Tracee.{read_exec, page_of}
use ocolos_public.Tracee.Files.{insert_bolted_function}
use ocolos_public.Tracee.Pages.{Refused}
use ocolos_public.Elf.{Symbol, Binary, elf_symbols, insert_symbols, write_functions}
use ocolos_public.Elf.Cut.{IsPlaced}
use ocolos_public.Elf.Functions.{last_function, function_records, ArePlaced}
use ocolos_public.Elf.Moved.{write_functions-inserted}
use ocolos_public.Tests.Models.{plain_kernel, plain_kernel-IsKernel, text_page}

abbrev junk : ℕ → ℕ
junk i = 0

abbrev a_function : Symbol
a_function = record {
  name = some (codes "f");
  address = 65536;
  size = 2;
  is_text = true;
  is_undefined = false;
  section = some 1;
}

abbrev a_vtable : Symbol
a_vtable = record {
  name = some (codes "_ZTV1A");
  address = 65538;
  size = 4;
  is_text = false;
  is_undefined = false;
  section = some 1;
}

abbrev a_binary : Binary
a_binary = record {
  sections = (0, 0) ∷ (65536, 3) ∷ [];
  symbols = a_function ∷ [];
  dynamic_symbols = a_vtable ∷ [];
  file_bytes = 7 ∷ 7 ∷ 7 ∷ 85 ∷ 195 ∷ 1 ∷ 2 ∷ 3 ∷ 4 ∷ [];
}

a_function-IsPlaced : IsPlaced a_binary a_function
a_function-IsPlaced = record {
  index = 1;
  base = 65536;
  offset = 3;
  index_is = refl;
  section_is = refl;
  above = omega arith;
  in_range = omega arith;
  inside = omega arith;
  small = omega arith;
}

a_binary-ArePlaced : ArePlaced a_binary (elf_symbols a_binary) (65536 ∷ [])
unfolding elf_symbols insert_symbols assign lookup
a_binary-ArePlaced a s (inl same) e =
    subst (IsPlaced a_binary)
      (found a_function s (subst (λ x. lookup x (elf_symbols a_binary) ≡ some s) same e))
      a_function-IsPlaced
  where
    found : (f g : Symbol) → some f ≡ some g → f ≡ g
    found f g e = cc
a_binary-ArePlaced a s (inr h) e = absurd h

write_functions-inserted_example :
    (file : Bytes) × (write_functions a_binary (65536 ∷ []) ≡ done file)
    × Safe
        (Refused plain_kernel)
        (λ s'. (s'.0 65537 ≡ 195) × (s'.1 (page_of 65537) ≡ some read_exec))
        (insert_bolted_function plain_kernel junk 0 (some file) text_page)
unfolding function_records elf_symbols insert_symbols assign lookup last_function
write_functions-inserted_example =
    write_functions-inserted plain_kernel plain_kernel-IsKernel junk a_binary (65536 ∷ []) text_page
      65536 1 195 a_function a_binary-ArePlaced
      (record { some_code = omega arith; fits = omega arith; are_bytes = ground arith }, tt)
      (tt, tt) (inl refl) refl (omega arith) refl
