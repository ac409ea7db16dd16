-- ===== src/Elf/Moved.antt =====
-- From the BOLTed binary to the target's memory: the moved functions stand there byte for byte.
use ocolos_public.Prelude.{
  ℕ, ◌+◌, ◌<◌, ◌≡◌, ◌∙◌, List, Bytes, some, get_elem?, Has, All, done, Safe, Safe-map,
}
use ocolos_public.Records.{IsRecord, write_records}
use ocolos_public.Tracee.{Kernel, IsKernel, read_exec, page_of}
use ocolos_public.Tracee.Files.{insert_bolted_function}
use ocolos_public.Tracee.Pages.{Refused}
use ocolos_public.Tracee.Machine.{All-Fits}
use ocolos_public.Tracee.Replacement.{insert_bolted_function-Moved}
use ocolos_public.Patch.Overlap.{AreApart, records_byte-Among}
use ocolos_public.Elf.{Symbol, Binary, all_symbols, elf_symbols, write_functions}
use ocolos_public.Elf.Cut.{file_start, get_elem?-symbol_code}
use ocolos_public.Elf.Functions.{
  last_function, lookup-elf_symbols, function_record, function_records, ArePlaced,
  function_records-Among, write_functions-records,
}

module _ (k : Kernel) (laws : IsKernel k) (junk : ℕ → ℕ) (b : Binary) (addrs : List ℕ) where
  -- write_functions and then insert_bolted_function carry the moved functions from the BOLTed binary
  -- to the memory of the target: write_functions gives a file, and after its insertion each byte
  -- that the binary has for a function of the array, by the last symbol of a function at that
  -- address, stands at its address, on a page that may be read and executed and not written. The
  -- insertion never faults, and exits only where the kernel refuses a page. The symbols must lie in
  -- the file, and their records have some code, fit into the lower half of the address space, and
  -- not overlap.
  pub write_functions-inserted :
      (s : k.Space) (a i c : ℕ) (function : Symbol)
      → ArePlaced b (elf_symbols b) addrs
      → All IsRecord (function_records b (elf_symbols b) addrs)
      → AreApart (function_records b (elf_symbols b) addrs)
      → Has a addrs
      → last_function a (all_symbols b) ≡ some function
      → i < function.size
      → get_elem? b.file_bytes (file_start b function + i) ≡ some c
      → (file : Bytes) × (write_functions b addrs ≡ done file)
        × Safe
            (Refused k)
            (λ s'. (k.byte_at s' (a + i) ≡ c) × (k.access s' (page_of (a + i)) ≡ some read_exec))
            (insert_bolted_function k junk 0 (some file) s)
  write_functions-inserted s a i c function placed records apart listed found inside byte =
      let rs = function_records b (elf_symbols b) addrs in
      let among =
        function_records-Among b (elf_symbols b) addrs a function listed
          (lookup-elf_symbols b a ∙ found) in
      let there =
        records_byte-Among (function_record b a function) rs i c apart among
          (get_elem?-symbol_code b function i inside ∙ byte) in
      (
        write_records rs,
        write_functions-records b addrs placed,
        Safe-map (Refused k) _ _ (insert_bolted_function k junk 0 (some (write_records rs)) s)
            (insert_bolted_function-Moved k laws junk 0 rs s records (All-Fits rs records))
            (λ s' m. (m.bytes (a + i) c there, m.sealed (a + i) c there)),
      )
