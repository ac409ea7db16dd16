-- ===== src/Process.antt =====
-- The target process as a whole: the threads that src/ptrace_pause.cpp controls, the memory that
-- src/replace_function.cpp writes, and the run of the library that joins the two.
pub mod Insertion
pub mod Calls
use ocolos_public.Prelude.{
  ℕ, List, ◌≡◌, ◌<◌, ◌⊎◌, ◌==◌, false, some, Outcome, done, exited, undefined,
}
use ocolos_public.Tracee.{Kernel}
use ocolos_public.Ptrace.{Regs, Status, stopped, ended, sigtrap, sigstop, Tracing}

-- A stop by another signal than the library's own.
abbrev pub IsOtherStop : Status → Type 0
IsOtherStop status = (sig : ℕ) × (status ≡ stopped sig) × ((sig == sigstop) ≡ false)

-- How a thread that runs the library stops: the library ends in raise(SIGSTOP), and exit(-1) ends
-- the process. Another signal may stop the thread before that, and of the memory it leaves then, as
-- of a library that faults, nothing is known. Nobody else sends SIGSTOP.
abbrev pub Runs :
    (p : Tracing) (k : Kernel) → (p.World → k.Space) → Outcome k.Space → p.World × Status → Type 0
Runs p k space (done s) (w, status) =
    ((status ≡ stopped sigstop) × (space w ≡ s)) ⊎ IsOtherStop status
Runs p k space exited (w, status) = (status ≡ ended) ⊎ IsOtherStop status
Runs p k space undefined (w, status) = Unit

-- `space` is the memory of the process but for its stacks. Setting registers leaves it alone, and so
-- does a single step at the library's function; a thread that the step took into the function runs
-- `library` when it is continued.
pub record IsTarget (p : Tracing) (k : Kernel) (space : p.World → k.Space) (lib_addr : ℕ)
    (library : k.Space → Outcome k.Space) : Type 0 where
  pub set_regs_space :
      (w w' : p.World) (t : ℕ) (r : Regs) → p.set_regs w t r ≡ some w' → space w' ≡ space w
  pub set_fregs_space :
      (w w' : p.World) (t : ℕ) (f : List ℕ) → p.set_fregs w t f ≡ some w' → space w' ≡ space w
  pub step_space :
      (w : p.World) (t : ℕ) → (p.regs w t).rip ≡ lib_addr → space (p.single_step w t).0 ≡ space w
  pub cont_runs :
      (w : p.World) (t : ℕ)
      → (p.regs w t).rip ≡ lib_addr
      → (p.single_step w t).1 ≡ stopped sigtrap
      → lib_addr < (p.regs (p.single_step w t).0 t).rip
      → Runs p k space (library (space (p.single_step w t).0)) (p.cont (p.single_step w t).0 t)

-- The second world is what a thread left in the memory that was continued on the memory of the first
-- and stopped by another signal than the library's own.
pub record IsInterrupted (p : Tracing) (k : Kernel) (space : p.World → k.Space) (w w' : p.World)
    : Type 0 where
  pub from : p.World
  pub thread : ℕ
  pub same_before : space from ≡ space w
  pub other_stop : IsOtherStop (p.cont from thread).1
  pub left : space w' ≡ space (p.cont from thread).0
