-- ===== src/Ptrace.antt =====
-- src/ptrace_pause.cpp and the middle of src/tracer.cpp: the threads of the target process are
-- listed and stopped, and one of them is sent through the library's function.
pub mod Threads
pub mod Registers
use ocolos_public.Prelude.{
  ℕ, zero, suc, ◌+◌, ◌-◌, ◌*◌, ◌/◌, ◌%◌, ◌^◌, ◌≤◌, ◌≡◌, Bool, true, false, not, ◌&&◌, ◌||◌, List,
  [], ◌∷◌, ◌++◌, Option, none, some, leb, ltb, ◌==◌, if◌then◌else◌, Bytes, contains, Outcome, done,
  exited, undefined, ◌>>=◌,
}
use ocolos_public.Utils.{is_num, convert_str_2_int}

-- user_regs_struct: the two registers that the tracer sets, and all others.
pub record Regs : Type 0 where
  pub rip : ℕ
  pub rsp : ℕ
  pub others : List ℕ

-- What waitpid reports: a stop by a signal, or an end.
pub data Status : Type 0 where
  stopped : ℕ → Status
  ended : Status

abbrev pub sigtrap : ℕ
sigtrap = 5

abbrev pub sigstop : ℕ
sigstop = 19

-- _sys_siglist of glibc names the signals from 1 to 31; the entries of the real-time signals are
-- NULL.
unfoldable pub has_sig_name : ℕ → Bool
has_sig_name sig = ltb 0 sig && ltb sig 32

-- `strdup(_sys_siglist[sig])` and what comes behind it.
unfoldable pub name_signal : {A : Type 0} → ℕ → Outcome A → Outcome A
unfolding has_sig_name
name_signal sig next = if has_sig_name sig then next else undefined

-- The kernel's side of ptrace(2). `none` is a call that does not return 0; PTRACE_SINGLESTEP and
-- PTRACE_CONT come with the waitpid behind them.
pub record Tracing : Type 1 where
  pub World : Type 0
  pub regs : World → ℕ → Regs
  pub fregs : World → ℕ → List ℕ
  pub set_regs : World → ℕ → Regs → Option World
  pub set_fregs : World → ℕ → List ℕ → Option World
  pub single_step : World → ℕ → World × Status
  pub cont : World → ℕ → World × Status
  pub attach : World → ℕ → World
  pub wait_stop : World → ℕ → World

-- What ptrace(2) documents: a set call sets the registers of the one thread, and a thread that runs
-- leaves the saved registers of the other, stopped threads alone.
pub record IsTracing (p : Tracing) : Type 0 where
  pub set_regs_regs :
      (w w' : p.World) (t u : ℕ) (r : Regs)
      → p.set_regs w t r ≡ some w'
      → p.regs w' u ≡ (if u == t then r else p.regs w u)
  pub set_regs_fregs :
      (w w' : p.World) (t u : ℕ) (r : Regs)
      → p.set_regs w t r ≡ some w'
      → p.fregs w' u ≡ p.fregs w u
  pub set_fregs_regs :
      (w w' : p.World) (t u : ℕ) (f : List ℕ)
      → p.set_fregs w t f ≡ some w'
      → p.regs w' u ≡ p.regs w u
  pub set_fregs_fregs :
      (w w' : p.World) (t u : ℕ) (f : List ℕ)
      → p.set_fregs w t f ≡ some w'
      → p.fregs w' u ≡ (if u == t then f else p.fregs w u)
  pub step_others :
      (w : p.World) (t u : ℕ)
      → (u == t) ≡ false
      → (p.regs (p.single_step w t).0 u ≡ p.regs w u)
        × (p.fregs (p.single_step w t).0 u ≡ p.fregs w u)
  pub cont_others :
      (w : p.World) (t u : ℕ)
      → (u == t) ≡ false
      → (p.regs (p.cont w t).0 u ≡ p.regs w u) × (p.fregs (p.cont w t).0 u ≡ p.fregs w u)

-- No thread is stopped by a signal that has no name.
pub record HasNamedStops (p : Tracing) : Type 0 where
  pub step_named :
      (w : p.World) (t sig : ℕ) → (p.single_step w t).1 ≡ stopped sig → has_sig_name sig ≡ true
  pub cont_named :
      (w : p.World) (t sig : ℕ) → (p.cont w t).1 ≡ stopped sig → has_sig_name sig ≡ true

-- One pass over the entries of /proc/<pid>/task: the new thread numbers, and whether there is one.
-- The vector and the set hold the same numbers; a pid_t has 32 bits.
unfoldable pub scan_entries : List ℕ → Bool → List Bytes → List ℕ × Bool
scan_entries tids has_new_tid [] = (tids, has_new_tid)
scan_entries tids has_new_tid (entry ∷ entries) =
    let tid_number = convert_str_2_int entry % 2 ^ 32 in
    let is_new = is_num entry && not (contains tids tid_number) in
    scan_entries (if is_new then tids ++ (tid_number ∷ []) else tids)
      (if is_new then true else has_new_tid) entries

-- `while (true)`: `task n` is the n-th reading of the directory, `none` if it cannot be opened. On
-- fuel, and undefined if that runs out.
unfoldable pub list_tids : (ℕ → Option (List Bytes)) → ℕ → ℕ → List ℕ → Outcome (List ℕ)
unfolding scan_entries
list_tids task zero n tids = undefined
list_tids task (suc fuel) n tids = elim (task n) [
  | none ↦ exited
  | some entries ↦
      let (tids', has_new_tid) = scan_entries tids false entries in
      let again = list_tids task fuel (n + 1) tids' in if has_new_tid then again else done tids'
]

-- `((rsp - 256) & 0xFFFFFFFFFFFFFFF0) - 8` on 64 bits.
unfoldable pub library_rsp : ℕ → ℕ
library_rsp rsp = ((rsp + (2 ^ 64 - 256)) % 2 ^ 64 / 16 * 16 + (2 ^ 64 - 8)) % 2 ^ 64

abbrev pub or_exit : {A : Type 0} → Option A → Outcome A
or_exit none = exited
or_exit (some a) = done a

module _ (p : Tracing) where
  open p use {World, regs, fregs, set_regs, set_fregs, single_step, cont, attach, wait_stop}

  -- `for (i = 0; i < tids.size(); i++)`, twice: attach to all, then wait for all.
  unfoldable pub for_all_tids : (World → ℕ → World) → List ℕ → World → World
  for_all_tids act [] w = w
  for_all_tids act (tid ∷ tids) w = for_all_tids act tids (act w tid)

  unfoldable pub pause_and_get_tids :
      (ℕ → Option (List Bytes)) → ℕ → World → Outcome (List ℕ × World)
  unfolding list_tids for_all_tids
  pause_and_get_tids task fuel w = list_tids task fuel 0 [] >>= λ tids.
      done (tids, for_all_tids wait_stop tids (for_all_tids attach tids w))

  -- PTRACE_SETREGS and PTRACE_SETFPREGS with the saved registers.
  unfoldable pub restore : World → ℕ → Regs → List ℕ → Outcome World
  restore w tid old_regs old_fregs = do
    w' ← or_exit (set_regs w tid old_regs)
    or_exit (set_fregs w' tid old_fregs)

  -- The part behind the single step: with the saved registers if the thread entered the library,
  -- and with `none`, the registers put back, if not.
  unfoldable pub after_step :
      World → ℕ → ℕ → Regs → List ℕ → Status → Outcome (World × Option (Regs × List ℕ))
  unfolding restore name_signal
  after_step w tid lib_addr old_regs old_fregs ended = exited
  after_step w tid lib_addr old_regs old_fregs (stopped sig) =
      let put_back = (restore w tid old_regs old_fregs >>= λ w'. done (w', none)) in
      if not (sig == sigtrap)
      then name_signal sig put_back
      else if leb (regs w tid).rip lib_addr
      then put_back
      else done (w, some (old_regs, old_fregs))

  unfoldable pub ptrace_single_step : World → ℕ → ℕ → Outcome (World × Option (Regs × List ℕ))
  unfolding after_step library_rsp
  ptrace_single_step w tid lib_addr =
      let old_regs = regs w tid in
      let old_fregs = fregs w tid in
      let new_regs = record old_regs { rip = lib_addr; rsp = library_rsp old_regs.rsp } in
      or_exit (set_regs w tid new_regs) >>= λ w₁.
      after_step (single_step w₁ tid).0 tid lib_addr old_regs old_fregs (single_step w₁ tid).1

  -- The part behind the PTRACE_CONT: both a SIGSTOP and another signal put the registers back.
  unfoldable pub after_cont : World → ℕ → Regs → List ℕ → Status → Outcome World
  unfolding restore name_signal
  after_cont w tid old_regs old_fregs ended = exited
  after_cont w tid old_regs old_fregs (stopped sig) = name_signal sig (
      if not (sig == sigstop)
      then restore w tid old_regs old_fregs
      else restore w tid old_regs old_fregs)

  unfoldable pub ptrace_cont : World → ℕ → Regs → List ℕ → Outcome World
  unfolding after_cont
  ptrace_cont w tid old_regs old_fregs =
      after_cont (cont w tid).0 tid old_regs old_fregs (cont w tid).1

  -- The loop of main: the first thread that enters the library runs it, and the loop ends.
  unfoldable pub insert_code : World → ℕ → List ℕ → Outcome World
  unfolding ptrace_single_step ptrace_cont
  insert_code w lib_addr [] = done w
  insert_code w lib_addr (tid ∷ tids) = ptrace_single_step w tid lib_addr >>= λ (w', saved).
      elim saved [
        | none ↦ insert_code w' lib_addr tids
        | some (old_regs, old_fregs) ↦ ptrace_cont w' tid old_regs old_fregs
      ]
