-- ===== src/Tests/Models.antt =====
-- A small kernel and a small tracing interface that keep what their manual pages document, to run
-- the model with.
use ocolos_public.Prelude.{
  ℕ, suc, ◌+◌, ◌*◌, ◌≡◌, refl, Bool, true, false, List, [], ◌∷◌, Option, none, some, ltb, ◌==◌,
  if◌then◌else◌, subst, arith,
}
use ocolos_public.Tracee.{Prot, page_of, Kernel, IsKernel}
use ocolos_public.Ptrace.{
  Regs, stopped, sigtrap, sigstop, Tracing, IsTracing, HasNamedStops, has_sig_name,
}

-- The bytes and the protection of the pages.
abbrev pub Pages : Type 0
Pages = (ℕ → ℕ) × (ℕ → Option Prot)

abbrev is_mapped : Option Prot → Bool
is_mapped none = false
is_mapped (some p) = true

abbrev is_writable : Option Prot → Bool
is_writable none = false
is_writable (some p) = p.write

abbrev pub only_if : {A : Type 0} → Bool → A → Option A
only_if true a = some a
only_if false a = none

only_if-some : {A : Type 0} (c : Bool) (a b : A) → only_if c a ≡ some b → a ≡ b
only_if-some true a b e = cc
only_if-some false a b e = cc

abbrev protected : Pages → ℕ → Prot → Pages
protected (bytes, access) p prot = (bytes, λ q. if q == p then some prot else access q)

abbrev pub plain_kernel : Kernel
plain_kernel = record {
  Space = Pages;
  byte_at = λ s. s.0;
  access = λ s. s.1;
  mmap = λ s p prot.
      only_if (if is_mapped (s.1 p) then false else true)
        ((λ a. if page_of a == p then 0 else s.0 a), λ q. if q == p then some prot else s.1 q);
  mprotect = λ s p prot. only_if (is_mapped (s.1 p)) (protected s p prot);
  store =
      λ s a b. only_if (is_writable (s.1 (page_of a))) ((λ c. if c == a then b else s.0 c), s.1);
}

pub plain_kernel-IsKernel : IsKernel plain_kernel
plain_kernel-IsKernel = record {
  mmap_access = λ s s' p q prot e.
      subst (λ x. x.1 q ≡ (if q == p then some prot else s.1 q)) (only_if-some _ _ s' e) refl;
  mmap_bytes =
      λ s s' p a prot e other. subst (λ x. x.0 a ≡ s.0 a) (only_if-some _ _ s' e) (ground arith);
  mprotect_access = λ s s' p q prot e.
      subst (λ x. x.1 q ≡ (if q == p then some prot else s.1 q)) (only_if-some _ _ s' e) refl;
  mprotect_bytes = λ s s' p a prot e. subst (λ x. x.0 a ≡ s.0 a) (only_if-some _ _ s' e) refl;
  store_writes = λ s a b writable. (((λ c. if c == a then b else s.0 c), s.1), rw writable refl);
  store_bytes = λ s s' a b c e.
      subst (λ x. x.0 c ≡ (if c == a then b else s.0 c)) (only_if-some _ _ s' e) refl;
  store_access = λ s s' a b p e. subst (λ x. x.1 p ≡ s.1 p) (only_if-some _ _ s' e) refl;
}

-- The original text at page 4096, readable and executable, with zeros in it.
abbrev pub text_page : Pages
text_page = (
  (λ a. 0),
  λ p. if p == 4096 then some (record { read = true; write = false; exec = true }) else none,
)

-- Pages 0, 4096 and 8192 of the original text, and page 0 alone.
abbrev pub text_pages : Pages
text_pages = (
  (λ a. 0),
  λ p. if ltb p 12288 then some (record { read = true; write = false; exec = true }) else none,
)

abbrev pub first_page : Pages
first_page = (
  (λ a. 0),
  λ p. if p == 0 then some (record { read = true; write = false; exec = true }) else none,
)

-- The signal of a stop that is known.
pub stopped-named :
    (sig known : ℕ)
    → stopped known ≡ stopped sig
    → has_sig_name known ≡ true
    → has_sig_name sig ≡ true
stopped-named sig known e h = subst (λ x. has_sig_name x ≡ true) (same e) h
  where
    same : stopped known ≡ stopped sig → known ≡ sig
    same q = cc

-- The registers of all threads. A step goes one byte on, and a continued thread stops at once.
abbrev pub Threads : Type 0
Threads = (ℕ → Regs) × (ℕ → List ℕ)

abbrev pub stepped : Threads → ℕ → Threads
stepped (regs, fregs) t =
    ((λ u. if u == t then record (regs u) { rip = suc (regs u).rip } else regs u), fregs)

abbrev pub plain_tracing : Tracing
plain_tracing = record {
  World = Threads;
  regs = λ w. w.0;
  fregs = λ w. w.1;
  set_regs = λ w t r. some ((λ u. if u == t then r else w.0 u), w.1);
  set_fregs = λ w t f. some (w.0, λ u. if u == t then f else w.1 u);
  single_step = λ w t. (stepped w t, stopped sigtrap);
  cont = λ w t. (stepped w t, stopped sigstop);
  attach = λ w t. w;
  wait_stop = λ w t. w;
}

pub plain_tracing-IsTracing : IsTracing plain_tracing
plain_tracing-IsTracing = record {
  set_regs_regs =
      λ w w' t u r e. subst (λ x. x.0 u ≡ (if u == t then r else w.0 u)) (some_is _ w' e) refl;
  set_regs_fregs = λ w w' t u r e. subst (λ x. x.1 u ≡ w.1 u) (some_is _ w' e) refl;
  set_fregs_regs = λ w w' t u f e. subst (λ x. x.0 u ≡ w.0 u) (some_is _ w' e) refl;
  set_fregs_fregs =
      λ w w' t u f e. subst (λ x. x.1 u ≡ (if u == t then f else w.1 u)) (some_is _ w' e) refl;
  step_others = λ w t u other. (rw other refl, refl);
  cont_others = λ w t u other. (rw other refl, refl);
}
  where
    some_is : (w w' : Threads) → some w ≡ some w' → w ≡ w'
    some_is w w' e = only_if-some true w w' e

pub plain_tracing-HasNamedStops : HasNamedStops plain_tracing
unfolding has_sig_name
plain_tracing-HasNamedStops = record {
  step_named = λ w t sig e. stopped-named sig sigtrap e refl;
  cont_named = λ w t sig e. stopped-named sig sigstop e refl;
}

-- Two threads, each with a stack at its own place.
abbrev pub two_threads : Threads
two_threads = ((λ t. record { rip = 100 + t; rsp = 4096 * t; others = [] }), λ t. t ∷ [])
