-- ===== src/Patch/Grouped.antt =====
-- From the map of call sites to memory: the groups are those that extract_call_sites.cpp makes.
use ocolos_public.Prelude.{
  ℕ, ◌+◌, ◌^◌, ◌≤◌, ◌<◌, ◌≡◌, refl, sym, true, some, [], lookup, has_key, subst, All, IsMap, Safe,
}
use ocolos_public.Functions.{FuncInfo, Funcs}
use ocolos_public.CallSites.{CallSite, Sites, group_sites}
use ocolos_public.CallSites.Groups.{group_sites-Calls}
use ocolos_public.Tracee.{Kernel, IsKernel}
use ocolos_public.Tracee.Files.{insert_call_site}
use ocolos_public.Tracee.Pages.{Refused}
use ocolos_public.Patch.{site_at, extract_call_sites}
use ocolos_public.Patch.Output.{call_records}
use ocolos_public.Patch.Overlap.{AreApart}
use ocolos_public.Patch.Correct.{CallsTo, patched_calls}

module _ (k : Kernel) (laws : IsKernel k) (junk : ℕ → ℕ) (unset : CallSite) (sites : Sites)
    (moved_func stack : Funcs) where
  -- With the groups that the program extract_call_sites makes of its call sites: once the file that
  -- the tracer writes is inserted, every call site whose target was moved, and whose own function
  -- is on a call stack, calls the function's new address, if that lies at most 2^31 - 1 behind the
  -- next instruction. The insertion never faults, and exits only where the kernel refuses a page.
  -- The patched instructions must not overlap, and lie in the lower half of the address space.
  pub patched_sites :
      (s : k.Space) (addr : ℕ) (site : CallSite) (moved : FuncInfo)
      → IsMap sites
      → IsMap moved_func
      → AreApart (call_records unset sites stack (group_sites [] sites) moved_func)
      → All
          (λ r. r.address + 8197 < 2 ^ 63)
          (call_records unset sites stack (group_sites [] sites) moved_func)
      → lookup addr sites ≡ some site
      → lookup site.target_func_addr moved_func ≡ some moved
      → has_key site.belonged_func stack ≡ true
      → site.next_addr ≤ moved.moved_addr
      → moved.moved_addr < site.next_addr + 2 ^ 31
      → Safe
          (Refused k)
          (λ s'. CallsTo (k.byte_at s') addr site.next_addr moved.moved_addr)
          (insert_call_site k junk 0
            (some (extract_call_sites unset sites (group_sites [] sites) moved_func stack))
            s)
  unfolding site_at
  patched_sites s addr site moved m mm apart low found target on ahead near =
      let there : site ≡ site_at unset sites addr = site_is addr site found in
      let listed = (group_sites-Calls sites addr site.target_func_addr m).1 (site, found, refl) in
      subst
        (λ x.
          Safe (Refused k) (λ s'. CallsTo (k.byte_at s') addr x.next_addr moved.moved_addr)
            (insert_call_site k junk 0
              (some (extract_call_sites unset sites (group_sites [] sites) moved_func stack)) s))
        (sym there)
        (patched_calls k laws junk unset sites (group_sites [] sites) moved_func stack s
          site.target_func_addr addr moved mm apart low target listed
          (subst (λ x. has_key x.belonged_func stack ≡ true) there on)
          (subst (λ x. x.next_addr ≤ moved.moved_addr) there ahead)
          (subst (λ x. moved.moved_addr < x.next_addr + 2 ^ 31) there near))
    where
      site_is :
          (addr : ℕ) (site : CallSite)
          → lookup addr sites ≡ some site
          → site ≡ site_at unset sites addr
      site_is addr site found = rw (found, site_at) refl
