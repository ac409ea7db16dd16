-- ===== src/Tests/Process.antt =====
-- A small target process whose continued thread runs a function on the memory, and the new call of
-- one site in it.
use ocolos_public.Prelude.{
  ℕ, suc, true, ◌≡◌, refl, ap, sym, inl, [], some, ◌==◌, if◌then◌else◌, subst, Outcome, done,
  exited, undefined,
}
use ocolos_public.Ptrace.{
  Status, stopped, ended, sigtrap, sigstop, Tracing, IsTracing, HasNamedStops, has_sig_name,
}
use ocolos_public.Process.{Runs, IsTarget}
use ocolos_public.Process.Calls.{replace_code}
use ocolos_public.Tests.Models.{
  Pages, plain_kernel, plain_kernel-IsKernel, stopped-named, Threads, stepped,
}
use ocolos_public.Tests.CallSites.{no_site, one_site}
use ocolos_public.Tests.Tracee.{text_records, bolted_records}
use ocolos_public.Tests.Patch.{moved, on_stack}

-- What a continued thread makes of the memory, and how it stops.
abbrev pub run_result : Pages → Outcome Pages → Pages × Status
run_result s (done s') = (s', stopped sigstop)
run_result s exited = (s, ended)
run_result s undefined = (s, ended)

module _ (library : Pages → Outcome Pages) where
  -- The registers of the threads, and the memory.
  abbrev pub target_tracing : Tracing
  target_tracing = record {
    World = Threads × Pages;
    regs = λ w. w.0.0;
    fregs = λ w. w.0.1;
    set_regs = λ w t r. some (((λ u. if u == t then r else w.0.0 u), w.0.1), w.1);
    set_fregs = λ w t f. some ((w.0.0, λ u. if u == t then f else w.0.1 u), w.1);
    single_step = λ w t. ((stepped w.0 t, w.1), stopped sigtrap);
    cont = λ w t.
        ((stepped w.0 t, (run_result w.1 (library w.1)).0), (run_result w.1 (library w.1)).1);
    attach = λ w t. w;
    wait_stop = λ w t. w;
  }

  some_is : (w w' : Threads × Pages) → some w ≡ some w' → w ≡ w'
  some_is w w' e = cc

  pub target_tracing-IsTracing : IsTracing target_tracing
  target_tracing-IsTracing = record {
    set_regs_regs = λ w w' t u r e.
        subst (λ x. x.0.0 u ≡ (if u == t then r else w.0.0 u)) (some_is _ w' e) refl;
    set_regs_fregs = λ w w' t u r e. subst (λ x. x.0.1 u ≡ w.0.1 u) (some_is _ w' e) refl;
    set_fregs_regs = λ w w' t u f e. subst (λ x. x.0.0 u ≡ w.0.0 u) (some_is _ w' e) refl;
    set_fregs_fregs = λ w w' t u f e.
        subst (λ x. x.0.1 u ≡ (if u == t then f else w.0.1 u)) (some_is _ w' e) refl;
    step_others = λ w t u other. (rw other refl, refl);
    cont_others = λ w t u other. (rw other refl, refl);
  }

  runs :
      (threads : Threads) (s : Pages) (o : Outcome Pages)
      → Runs target_tracing plain_kernel
          (λ w. w.1)
          o
          ((threads, (run_result s o).0), (run_result s o).1)
  runs threads s (done s') = inl (refl, refl)
  runs threads s exited = inl refl
  runs threads s undefined = tt

  pub target_tracing-IsTarget : IsTarget target_tracing plain_kernel (λ w. w.1) 500 library
  target_tracing-IsTarget = record {
    set_regs_space = λ w w' t r e. ap (λ x. x.1) (sym (some_is _ w' e));
    set_fregs_space = λ w w' t f e. ap (λ x. x.1) (sym (some_is _ w' e));
    step_space = λ w t e. refl;
    cont_runs = λ w t at stop inside. runs (stepped (stepped w.0 t) t) w.1 (library w.1);
  }

  named_runs :
      (s : Pages) (o : Outcome Pages) (sig : ℕ)
      → (run_result s o).1 ≡ stopped sig
      → has_sig_name sig ≡ true
  unfolding has_sig_name
  named_runs s (done s') sig e = stopped-named sig sigstop e refl
  named_runs s exited sig e = absurd (not_stopped e)
    where
      not_stopped : ended ≡ stopped sig → ⊥
      not_stopped q = cc
  named_runs s undefined sig e = absurd (not_stopped e)
    where
      not_stopped : ended ≡ stopped sig → ⊥
      not_stopped q = cc

  pub target_tracing-HasNamedStops : HasNamedStops target_tracing
  unfolding has_sig_name
  target_tracing-HasNamedStops = record {
    step_named = λ w t sig e. stopped-named sig sigtrap e refl;
    cont_named = λ w t sig e. named_runs w.1 (library w.1) sig e;
  }

-- A function that counts its runs in the memory.
abbrev counting : Pages → Outcome Pages
counting (bytes, access) = done ((λ a. suc (bytes a)), access)

abbrev junk : ℕ → ℕ
junk i = 0

-- The library's function with the new call of the site at 64, and no records for the rest.
abbrev one_call : Pages → Outcome Pages
one_call =
    replace_code plain_kernel plain_kernel-IsKernel junk no_site one_site moved on_stack
      bolted_records text_records []
