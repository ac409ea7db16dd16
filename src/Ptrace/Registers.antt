-- ===== src/Ptrace/Registers.antt =====
-- The registers of the threads before and after the code insertion.
use ocolos_public.Prelude.{
  ℕ, ◌+◌, ◌%◌, ◌^◌, ◌≤◌, ◌<◌, ◌≡◌, refl, ◌∙◌, inl, inr, true, false, not, List, [], ◌∷◌, Option,
  none, some, leb, ◌==◌, Bool-cases, if_both, arith, Outcome, done, ◌>>=◌, Safe, Safe-bind,
  Safe-map,
}
use ocolos_public.Ptrace.{
  Regs, Status, stopped, ended, sigtrap, sigstop, Tracing, IsTracing, library_rsp, or_exit, restore,
  after_step, ptrace_single_step, after_cont, ptrace_cont, insert_code, HasNamedStops, has_sig_name,
  name_signal,
}

-- For every stack pointer of 279 bytes or more the new one is 8 below a multiple of 16, as at the
-- entry of a function, and leaves the red zone of 128 bytes and as many bytes more untouched.
pub library_rsp_aligned :
    (rsp : ℕ)
    → 279 ≤ rsp
    → rsp < 2 ^ 64
    → (library_rsp rsp % 16 ≡ 8) × (library_rsp rsp + 264 ≤ rsp) × (rsp ≤ library_rsp rsp + 279)
unfolding library_rsp
library_rsp_aligned rsp lo hi = (omega arith, omega arith, omega arith)

pub or_exit-Safe : {A : Type 0} (o : Option A) → Safe Unit (λ a. o ≡ some a) (or_exit o)
or_exit-Safe none = tt
or_exit-Safe (some a) = refl

pub name_signal-Safe :
    {A : Type 0} (E : Type 0) (P : A → Type 0) (sig : ℕ) (next : Outcome A)
    → has_sig_name sig ≡ true
    → Safe E P next
    → Safe E P (name_signal sig next)
unfolding name_signal
name_signal-Safe E P sig next named h = rw named h

-- A signal that a stop reports has a name.
abbrev pub IsNamed : Status → Type 0
IsNamed status = (sig : ℕ) → status ≡ stopped sig → has_sig_name sig ≡ true

module _ (p : Tracing) (laws : IsTracing p) where
  open p use {World, regs, fregs}

  -- All threads have the same saved registers in both worlds.
  pub record SameRegs (w w' : World) : Type 0 where
    pub same_regs : (t : ℕ) → regs w' t ≡ regs w t
    pub same_fregs : (t : ℕ) → fregs w' t ≡ fregs w t

  -- The same, for all threads but one.
  pub record SameOthers (tid : ℕ) (w w' : World) : Type 0 where
    pub other_regs : (t : ℕ) → (t == tid) ≡ false → regs w' t ≡ regs w t
    pub other_fregs : (t : ℕ) → (t == tid) ≡ false → fregs w' t ≡ fregs w t

  SameRegs-trans : {u v w : World} → SameRegs u v → SameRegs v w → SameRegs u w
  SameRegs-trans a b = record {
    same_regs = λ t. b.same_regs t ∙ a.same_regs t;
    same_fregs = λ t. b.same_fregs t ∙ a.same_fregs t;
  }

  SameOthers-trans :
      {tid : ℕ} {u v w : World} → SameOthers tid u v → SameOthers tid v w → SameOthers tid u w
  SameOthers-trans a b = record {
    other_regs = λ t n. b.other_regs t n ∙ a.other_regs t n;
    other_fregs = λ t n. b.other_fregs t n ∙ a.other_fregs t n;
  }

  -- Putting back the saved registers of the one thread makes all registers the old ones.
  restore-SameRegs :
      (w₀ w : World) (tid : ℕ)
      → SameOthers tid w₀ w
      → Safe Unit (SameRegs w₀) (restore p w tid (regs w₀ tid) (fregs w₀ tid))
  unfolding restore
  restore-SameRegs w₀ w tid o =
      Safe-bind Unit _ _ (or_exit (p.set_regs w tid (regs w₀ tid))) _
        (or_exit-Safe (p.set_regs w tid (regs w₀ tid)))
        (λ w₁ e₁.
          Safe-map Unit _ _ (or_exit (p.set_fregs w₁ tid (fregs w₀ tid)))
            (or_exit-Safe (p.set_fregs w₁ tid (fregs w₀ tid))) (λ w₂ e₂. put_back w₁ w₂ e₁ e₂))
    where
      put_back :
          (w₁ w₂ : World)
          → p.set_regs w tid (regs w₀ tid) ≡ some w₁
          → p.set_fregs w₁ tid (fregs w₀ tid) ≡ some w₂
          → SameRegs w₀ w₂
      put_back w₁ w₂ e₁ e₂ = record {
        same_regs = λ t. elim (Bool-cases (t == tid)) [
          | inl same ↦ ground (
            arith,
            laws.set_fregs_regs w₁ w₂ tid t (fregs w₀ tid) e₂,
            laws.set_regs_regs w w₁ tid t (regs w₀ tid) e₁,
          )
          | inr other ↦ ground (
            arith,
            laws.set_fregs_regs w₁ w₂ tid t (fregs w₀ tid) e₂,
            laws.set_regs_regs w w₁ tid t (regs w₀ tid) e₁,
            o.other_regs t,
          )
        ];
        same_fregs = λ t. elim (Bool-cases (t == tid)) [
          | inl same ↦ ground (
            arith,
            laws.set_fregs_fregs w₁ w₂ tid t (fregs w₀ tid) e₂,
            laws.set_regs_fregs w w₁ tid t (regs w₀ tid) e₁,
          )
          | inr other ↦ ground (
            arith,
            laws.set_fregs_fregs w₁ w₂ tid t (fregs w₀ tid) e₂,
            laws.set_regs_fregs w w₁ tid t (regs w₀ tid) e₁,
            o.other_fregs t,
          )
        ];
      }

  set_regs-SameOthers :
      (w w₁ : World) (tid : ℕ) (r : Regs) → p.set_regs w tid r ≡ some w₁ → SameOthers tid w w₁
  set_regs-SameOthers w w₁ tid r e = record {
    other_regs = λ t n. ground (arith, laws.set_regs_regs w w₁ tid t r e);
    other_fregs = λ t n. laws.set_regs_fregs w w₁ tid t r e;
  }

  step-SameOthers : (w : World) (tid : ℕ) → SameOthers tid w (p.single_step w tid).0
  step-SameOthers w tid = record {
    other_regs = λ t n. (laws.step_others w tid t n).0;
    other_fregs = λ t n. (laws.step_others w tid t n).1;
  }

  cont-SameOthers : (w : World) (tid : ℕ) → SameOthers tid w (p.cont w tid).0
  cont-SameOthers w tid = record {
    other_regs = λ t n. (laws.cont_others w tid t n).0;
    other_fregs = λ t n. (laws.cont_others w tid t n).1;
  }

  -- What a single step into the library gives: with `none`, all registers as they were; with saved
  -- registers, those of the thread as they were, the thread inside the library, and the others as
  -- they were.
  abbrev pub AfterStep : World → ℕ → ℕ → World × Option (Regs × List ℕ) → Type 0
  AfterStep w₀ tid lib_addr (w, none) = SameRegs w₀ w
  AfterStep w₀ tid lib_addr (w, some (old_regs, old_fregs)) =
      (old_regs ≡ regs w₀ tid)
      × (old_fregs ≡ fregs w₀ tid)
      × (lib_addr < (regs w tid).rip)
      × SameOthers tid w₀ w

  after_step-AfterStep :
      (w₀ w : World) (tid lib_addr : ℕ) (status : Status)
      → IsNamed status
      → SameOthers tid w₀ w
      → Safe Unit
          (AfterStep w₀ tid lib_addr)
          (after_step p w tid lib_addr (regs w₀ tid) (fregs w₀ tid) status)
  unfolding after_step
  after_step-AfterStep w₀ w tid lib_addr ended named o = tt
  after_step-AfterStep w₀ w tid lib_addr (stopped sig) named o =
      elim (Bool-cases (sig == sigtrap)) [
        | inr other ↦ rw other (name_signal-Safe Unit _ sig _ (named sig refl) put_back)
        | inl trap ↦ rw trap (elim (Bool-cases (leb (regs w tid).rip lib_addr)) [
          | inl out ↦ rw out put_back
          | inr entered ↦ rw entered (refl, refl, ground arith, o)
        ])
      ]
    where
      put_back :
          Safe Unit
            (AfterStep w₀ tid lib_addr)
            (restore p w tid (regs w₀ tid) (fregs w₀ tid) >>= λ w'. done (w', none))
      put_back =
          Safe-bind Unit (SameRegs w₀) (AfterStep w₀ tid lib_addr)
            (restore p w tid (regs w₀ tid) (fregs w₀ tid)) (λ w'. done (w', none))
            (restore-SameRegs w₀ w tid o) (λ w' same. same)

  -- ptrace_single_step on any thread, where each stop's signal has a name: it is defined, and if the thread did not enter the library,
  -- all registers of all threads are as before; if it did, its registers are saved, and those of
  -- the other threads are as before.
  pub ptrace_single_step-AfterStep :
      (named : HasNamedStops p) (w : World) (tid lib_addr : ℕ)
      → Safe Unit (AfterStep w tid lib_addr) (ptrace_single_step p w tid lib_addr)
  unfolding ptrace_single_step
  ptrace_single_step-AfterStep named w tid lib_addr =
      Safe-bind Unit _ _ (or_exit (p.set_regs w tid _)) _ (or_exit-Safe (p.set_regs w tid _))
        (λ w₁ e.
          after_step-AfterStep w (p.single_step w₁ tid).0 tid lib_addr (p.single_step w₁ tid).1
            (named.step_named w₁ tid)
            (SameOthers-trans (set_regs-SameOthers w w₁ tid _ e) (step-SameOthers w₁ tid)))

  after_cont-SameRegs :
      (w₀ w : World) (tid : ℕ) (status : Status)
      → IsNamed status
      → SameOthers tid w₀ w
      → Safe Unit (SameRegs w₀) (after_cont p w tid (regs w₀ tid) (fregs w₀ tid) status)
  unfolding after_cont
  after_cont-SameRegs w₀ w tid ended named o = tt
  after_cont-SameRegs w₀ w tid (stopped sig) named o =
      name_signal-Safe Unit _ sig _ (named sig refl) (
        if_both (Safe Unit (SameRegs w₀)) (not (sig == sigstop)) (restore-SameRegs w₀ w tid o)
          (restore-SameRegs w₀ w tid o))

  -- The insertion of code is invisible in the registers: whichever thread runs the library, if each
  -- stop that the steps report is by one of the signals 1 to 31, the loop is never undefined, and if
  -- the tracer does not exit, then every thread of the target has the general and the floating point
  -- registers that it had before. (For a real-time signal the tracer copies its name from NULL.)
  pub insert_code-SameRegs :
      (named : HasNamedStops p) (tids : List ℕ) (w : World) (lib_addr : ℕ)
      → Safe Unit (SameRegs w) (insert_code p w lib_addr tids)
  unfolding insert_code
  insert_code-SameRegs named [] w lib_addr = record {
    same_regs = λ t. refl;
    same_fregs = λ t. refl;
  }
  insert_code-SameRegs named (tid ∷ tids) w lib_addr =
      step (ptrace_single_step p w tid lib_addr) (ptrace_single_step-AfterStep named w tid lib_addr)
        (λ w'. insert_code-SameRegs named tids w' lib_addr)
    where
      go :
          (w' : World) (saved : Option (Regs × List ℕ))
          → AfterStep w tid lib_addr (w', saved)
          → Safe Unit (SameRegs w') (insert_code p w' lib_addr tids)
          → Safe Unit (SameRegs w) (elim saved [
            | none ↦ insert_code p w' lib_addr tids
            | some (old_regs, old_fregs) ↦ ptrace_cont p w' tid old_regs old_fregs
          ])
      go w' none same ih =
          Safe-map Unit _ _ (insert_code p w' lib_addr tids) ih
            (λ w'' more. SameRegs-trans same more)
      go w' (some (old_regs, old_fregs)) (r, f, entered, o) ih =
          rw (r, f)
            (unfold ptrace_cont in
              after_cont-SameRegs w (p.cont w' tid).0 tid (p.cont w' tid).1
                (named.cont_named w' tid) (SameOthers-trans o (cont-SameOthers w' tid)))

      step :
          (m : Outcome (World × Option (Regs × List ℕ)))
          → Safe Unit (AfterStep w tid lib_addr) m
          → ((w' : World) → Safe Unit (SameRegs w') (insert_code p w' lib_addr tids))
          → Safe Unit (SameRegs w) (
              m >>= λ (w', saved). elim saved [
                | none ↦ insert_code p w' lib_addr tids
                | some (old_regs, old_fregs) ↦ ptrace_cont p w' tid old_regs old_fregs
              ])
      step m h ih = Safe-bind Unit _ _ m _ h (λ (w', saved) a. go w' saved a (ih w'))
