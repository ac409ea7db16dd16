-- ===== src/Patch.antt =====
-- src/extract_machine_code.cpp: the tracer writes a new call instruction for each call site whose
-- callee was moved and whose own function stays on a call stack. The two archives that
-- extract_call_sites wrote are arguments.
pub mod Output
pub mod Selection
pub mod Overlap
pub mod Correct
pub mod Unchanged
pub mod Grouped
use ocolos_public.Prelude.{
  ℕ, ◌+◌, Bool, true, false, List, [], ◌∷◌, ◌++◌, Option, none, some, if◌then◌else◌, Bytes, length,
  lookup, has_key, sub_ℕ,
}
use ocolos_public.Utils.{convert_long_2_vec_uint8}
use ocolos_public.Functions.{FuncInfo, Funcs}
use ocolos_public.Records.{put_long}
use ocolos_public.CallSites.{CallSite, Sites, SitesList}

-- `call_sites[addr]`; a missing entry is made by the constructor, which sets nothing.
unfoldable pub site_at : CallSite → Sites → ℕ → CallSite
site_at unset call_sites addr = elim (lookup addr call_sites) [ none ↦ unset | some site ↦ site ]

-- `long offset = new_target_addr - base_addr` and its four bytes, behind the opcode 232.
unfoldable pub call_code : ℕ → ℕ → Bytes
call_code new_target_addr base_addr =
    232 ∷ convert_long_2_vec_uint8 (sub_ℕ new_target_addr base_addr)

-- The body of the inner loop: nothing for a caller that is on no call stack, else the address, the
-- size and the code.
unfoldable pub write_call : CallSite → Sites → Funcs → FuncInfo → ℕ → Bytes
unfolding site_at call_code
write_call unset call_sites func_in_call_stack moved addr =
    let site = site_at unset call_sites addr in
    let code = call_code moved.moved_addr site.next_addr in
    if has_key site.belonged_func func_in_call_stack
    then put_long addr ++ (put_long (length code) ++ code)
    else []

write_callers : CallSite → Sites → Funcs → FuncInfo → List ℕ → Bytes
write_callers unset call_sites func_in_call_stack moved [] = []
write_callers unset call_sites func_in_call_stack moved (addr ∷ caller_list) =
    write_call unset call_sites func_in_call_stack moved addr
    ++ write_callers unset call_sites func_in_call_stack moved caller_list

-- What extract_call_sites appends to its file.
unfoldable pub extract_call_sites : CallSite → Sites → SitesList → Funcs → Funcs → Bytes
unfolding write_callers write_call
extract_call_sites unset call_sites call_sites_list [] func_in_call_stack = []
extract_call_sites unset call_sites call_sites_list ((k, moved) ∷ moved_func) func_in_call_stack =
    let rest = extract_call_sites unset call_sites call_sites_list moved_func func_in_call_stack in
    elim (lookup k call_sites_list) [
      | none ↦ rest
      | some caller_lists ↦
          write_callers unset call_sites func_in_call_stack moved caller_lists ++ rest
    ]
