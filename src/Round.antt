-- ===== src/Round.antt =====
-- One round of code replacement, from what main of src/tracer.cpp has computed to the target process:
-- elf-extract writes three of the files, and the library reads all four.
pub mod Replaced
use ocolos_public.Prelude.{Bytes, true, some, Outcome, done, ◌>>=◌, ℕ}
use ocolos_public.Tracee.{Kernel}
use ocolos_public.Tracee.Files.{insert_machine_code}
use ocolos_public.Tracer.{Plan}
use ocolos_public.Elf.{Binary, write_functions, write_vtable}

-- The four files that the tracer writes for the library.
pub record Files : Type 0 where
  pub bolted_function_bin : Bytes
  pub call_sites_bin : Bytes
  pub v_table_bin : Bytes
  pub unmoved_func_bin : Bytes

-- The calls of write_functions and write_vtable, by the BOLTed binary.
unfoldable pub write_files : Binary → Plan → Outcome Files
unfolding write_functions write_vtable
write_files b plan = do
  bolted ← write_functions b plan.addr_bolted_func
  v_table ← write_vtable b
  unmoved ← write_functions b plan.addr_unmoved_func_not_in_call_stack
  done (record {
    bolted_function_bin = bolted;
    call_sites_bin = plan.call_sites_bin;
    v_table_bin = v_table;
    unmoved_func_bin = unmoved;
  })

-- The library, on these files.
abbrev pub run_library : (k : Kernel) → (ℕ → ℕ) → Files → k.Space → Outcome k.Space
run_library k junk files =
    insert_machine_code k junk true (some files.bolted_function_bin) (some files.call_sites_bin)
      (some files.v_table_bin) (some files.unmoved_func_bin)
