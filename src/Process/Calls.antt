-- ===== src/Process/Calls.antt =====
-- From the records of the tracer to the calls of the target process: the tracer writes the file of
-- call sites, sends a thread through the library's function, and the calls lead to the moved
-- functions.
use ocolos_public.Prelude.{ℕ, ◌+◌, ◌^◌, ◌<◌, true, List, [], some, Outcome, All, IsMap}
use ocolos_public.Functions.{Funcs}
use ocolos_public.Records.{Record, IsRecord, write_records}
use ocolos_public.CallSites.{CallSite, Sites, group_sites}
use ocolos_public.Tracee.{Kernel, IsKernel}
use ocolos_public.Tracee.Files.{insert_machine_code}
use ocolos_public.Patch.{extract_call_sites}
use ocolos_public.Patch.Output.{call_records}
use ocolos_public.Patch.Overlap.{AreApart}

module _ (k : Kernel) (k_laws : IsKernel k) (junk : ℕ → ℕ) (unset : CallSite) (sites : Sites)
    (moved_func stack : Funcs) (bolted v_table unmoved : List Record) where
  -- The four files, the second written by the tracer from the archives of extract_call_sites, as
  -- the library's function reads them.
  abbrev pub replace_code : k.Space → Outcome k.Space
  replace_code =
      insert_machine_code k junk true (some (write_records bolted))
        (some (extract_call_sites unset sites (group_sites [] sites) moved_func stack))
        (some (write_records v_table)) (some (write_records unmoved))

  -- The records of the second file.
  abbrev pub patches : List Record
  patches = call_records unset sites stack (group_sites [] sites) moved_func

  -- What must hold of the data that the tracer has collected: the tables have each key once, the
  -- instructions to patch do not overlap and lie in the lower half of the address space, and the
  -- other files hold records.
  pub record AreData : Type 0 where
    pub sites_map : IsMap sites
    pub moved_map : IsMap moved_func
    pub apart : AreApart patches
    pub low : All (λ r. r.address + 8197 < 2 ^ 63) patches
    pub bolted_records : All IsRecord bolted
    pub v_table_records : All IsRecord v_table
    pub unmoved_records : All IsRecord unmoved
