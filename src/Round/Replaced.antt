-- ===== src/Round/Replaced.antt =====
-- The functions that one round replaces in place.
use ocolos_public.Prelude.{ℕ, ◌+◌, ◌<◌, ◌≡◌, List, some, get_elem?, Has, All, done}
use ocolos_public.Records.{Record, IsRecord, write_records}
use ocolos_public.Tracee.{Kernel, IsKernel}
use ocolos_public.Patch.Overlap.{AreApart}
use ocolos_public.Tracer.{Plan}
use ocolos_public.Elf.{Symbol, Binary, all_symbols, elf_symbols}
use ocolos_public.Elf.Cut.{file_start}
use ocolos_public.Elf.Functions.{last_function, function_record, function_records, ArePlaced}
use ocolos_public.Elf.Tables.{first_vtable, ArePlacedTables}
use ocolos_public.Round.{Files, write_files}

-- What must hold of the BOLTed binary and of the data that main has computed: the symbols lie in the
-- file, their records have code and fit into the lower half of the address space, the file of call
-- sites holds records, and the functions that are replaced in place do not overlap.
pub record IsWritable (b : Binary) (plan : Plan) (calls : List Record) : Type 0 where
  pub placed_moved : ArePlaced b (elf_symbols b) plan.addr_bolted_func
  pub placed_unmoved : ArePlaced b (elf_symbols b) plan.addr_unmoved_func_not_in_call_stack
  pub placed_tables : ArePlacedTables b (all_symbols b)
  pub moved_records : All IsRecord (function_records b (elf_symbols b) plan.addr_bolted_func)
  pub unmoved_records :
      All IsRecord (function_records b (elf_symbols b) plan.addr_unmoved_func_not_in_call_stack)
  pub table_records :
      (a : ℕ) (s : Symbol)
      → first_vtable a (all_symbols b) ≡ some s
      → IsRecord (function_record b a s)
  pub calls_are : plan.call_sites_bin ≡ write_records calls
  pub call_records : All IsRecord calls
  pub unmoved_apart :
      AreApart (function_records b (elf_symbols b) plan.addr_unmoved_func_not_in_call_stack)

module _ (b : Binary) (plan : Plan) (calls : List Record) (h : IsWritable b plan calls) where
  -- The files hold records, the last those of the functions that are replaced in place.
  record HasRecords (files : Files) : Type 0 where
    moved : List Record
    tables : List Record
    moved_are : All IsRecord moved
    tables_are : All IsRecord tables
    moved_file : files.bolted_function_bin ≡ write_records moved
    calls_file : files.call_sites_bin ≡ write_records calls
    tables_file : files.v_table_bin ≡ write_records tables
    unmoved_file :
        files.unmoved_func_bin
        ≡ write_records
            (function_records b (elf_symbols b) plan.addr_unmoved_func_not_in_call_stack)

  module _ (k : Kernel) (k_laws : IsKernel k) (junk : ℕ → ℕ) (files : Files)
      (written : write_files b plan ≡ done files) where
    -- The function is in the binary, and is one of those to replace in place; the binary has this byte
    -- for it.
    record IsByte (a i c : ℕ) (function : Symbol) : Type 0 where
      listed : Has a plan.addr_unmoved_func_not_in_call_stack
      found : last_function a (all_symbols b) ≡ some function
      inside : i < function.size
      byte : get_elem? b.file_bytes (file_start b function + i) ≡ some c
