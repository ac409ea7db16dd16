-- ===== src/Process/Insertion.antt =====
-- The code insertion as the tracer drives it: what it leaves in the memory of the process.
use ocolos_public.Prelude.{ℕ, ◌≡◌, ◌⊎◌, List, Option, none, some, Outcome, done}
use ocolos_public.Tracee.{Kernel}
use ocolos_public.Ptrace.{Regs, Tracing, IsTracing, HasNamedStops}
use ocolos_public.Process.{Runs, IsTarget, IsInterrupted}

module _ (p : Tracing) (p_laws : IsTracing p) (k : Kernel) (space : p.World → k.Space)
    (lib_addr : ℕ) (library : k.Space → Outcome k.Space)
    (laws : IsTarget p k space lib_addr library) (named : HasNamedStops p) where
  open p use {World, regs, fregs, single_step, cont}

  -- After the step: the memory is as before, and a thread with saved registers runs the library.
  abbrev Stepped : World → ℕ → World × Option (Regs × List ℕ) → Type 0
  Stepped w₀ tid (w, none) = space w ≡ space w₀
  Stepped w₀ tid (w, some saved) =
      (space w ≡ space w₀) × Runs p k space (library (space w)) (cont w tid)

  -- What the insertion leaves: the memory as it was, where no thread went into the library, what the
  -- library has made of it, or what it had made of it when another signal came.
  abbrev Inserts : World → World → Type 0
  Inserts w w' =
      (space w' ≡ space w) ⊎ ((library (space w) ≡ done (space w')) ⊎ IsInterrupted p k space w w')
