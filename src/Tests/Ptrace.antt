-- ===== src/Tests/Ptrace.antt =====
-- src/ptrace_pause.cpp with two threads.
use ocolos_public.Prelude.{
  ℕ, zero, suc, ◌+◌, ◌≤◌, ◌%◌, ◌≡◌, refl, true, List, [], ◌∷◌, some, Bytes, codes, contains, Safe,
  done, arith, Option,
}
use ocolos_public.Utils.{is_num, convert_str_2_int}
use ocolos_public.Ptrace.{list_tids, library_rsp, insert_code}
use ocolos_public.Ptrace.Registers.{library_rsp_aligned, SameRegs, insert_code-SameRegs}
use ocolos_public.Ptrace.Threads.{Distinct, AreBelow, HasReading, list_tids-ends}
use ocolos_public.Tests.Models.{
  plain_tracing, plain_tracing-IsTracing, plain_tracing-HasNamedStops, two_threads,
}

library_rsp_aligned_example :
    (library_rsp 4103 % 16 ≡ 8) × (library_rsp 4103 + 264 ≤ 4103) × (4103 ≤ library_rsp 4103 + 279)
library_rsp_aligned_example = library_rsp_aligned 4103 (omega arith) (omega arith)

insert_code-SameRegs_example :
    Safe Unit
      (SameRegs plain_tracing plain_tracing-IsTracing two_threads)
      (insert_code plain_tracing two_threads 500 (1 ∷ 2 ∷ []))
insert_code-SameRegs_example =
    insert_code-SameRegs plain_tracing plain_tracing-IsTracing plain_tracing-HasNamedStops
      (1 ∷ 2 ∷ []) two_threads 500

-- A directory with one thread first and two from the second reading on.
abbrev growing : ℕ → Option (List Bytes)
growing zero = some (codes "." ∷ codes "5" ∷ [])
growing (suc n) = some (codes "." ∷ codes "5" ∷ codes "6" ∷ [])

growing-AreBelow : AreBelow 7 growing
unfolding is_num convert_str_2_int
growing-AreBelow zero =
    (codes "." ∷ codes "5" ∷ [], refl, ((λ e. absurd (is_dot e)), ((λ e. omega arith), tt)))
  where
    is_dot : is_num (codes ".") ≡ true → ⊥
    is_dot e = cc
growing-AreBelow (suc n) = (
  codes "." ∷ codes "5" ∷ codes "6" ∷ [],
  refl,
  ((λ e. absurd (is_dot e)), ((λ e. omega arith), ((λ e. omega arith), tt))),
)
  where
    is_dot : is_num (codes ".") ≡ true → ⊥
    is_dot e = cc

list_tids-ends_example :
    (tids : List ℕ) × (list_tids growing 8 0 [] ≡ done tids)
    × Distinct tids
    × HasReading growing tids 0
list_tids-ends_example = list_tids-ends growing 7 growing-AreBelow

two_tids : list_tids growing 8 0 [] ≡ done (5 ∷ 6 ∷ [])
unfolding list_tids is_num contains convert_str_2_int
two_tids = refl
