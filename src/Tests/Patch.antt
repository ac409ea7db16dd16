-- ===== src/Tests/Patch.antt =====
-- src/extract_machine_code.cpp with the call site of one function.
use ocolos_public.Prelude.{assign, ℕ, refl, [], ◌∷◌, some, Safe, arith, has_key, lookup}
use ocolos_public.Functions.{Funcs}
use ocolos_public.Patch.Grouped.{patched_sites}
use ocolos_public.CallSites.{group_sites, SitesList}
use ocolos_public.Tracee.Files.{insert_call_site}
use ocolos_public.Tracee.Pages.{Refused}
use ocolos_public.Patch.{site_at, extract_call_sites}
use ocolos_public.Patch.Output.{call_records}
use ocolos_public.Patch.Correct.{CallsTo}
use ocolos_public.Tests.Models.{plain_kernel, plain_kernel-IsKernel, text_pages}
use ocolos_public.Tests.Functions.{func_at}
use ocolos_public.Tests.CallSites.{site_64, no_site, one_site}

abbrev nothing : ℕ → ℕ
nothing i = 0

abbrev groups : SitesList
groups = (16, 64 ∷ []) ∷ []

-- The function at 16 was moved to 4096; that at 48 is on a call stack.
abbrev pub moved : Funcs
moved = (16, func_at 16 4096) ∷ []

abbrev pub on_stack : Funcs
on_stack = (48, func_at 48 0) ∷ []

-- The call at 64 of the function at 16, which was moved to 4096.
patched_sites_example :
    Safe
      (Refused plain_kernel)
      (λ s'. CallsTo (s'.0) 64 69 4096)
      (insert_call_site plain_kernel nothing 0
        (some (extract_call_sites no_site one_site (group_sites [] one_site) moved on_stack))
        text_pages)
unfolding has_key lookup call_records group_sites assign site_at
patched_sites_example =
    patched_sites plain_kernel plain_kernel-IsKernel nothing no_site one_site moved on_stack
      text_pages 64 site_64 (func_at 16 4096) (refl, tt) (refl, tt) (tt, tt) (omega arith, tt) refl
      refl refl (omega arith) (omega arith)
