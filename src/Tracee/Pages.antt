-- ===== src/Tracee/Pages.antt =====
-- The loop over the pages of a record: which pages it opens, and what it leaves alone.
use ocolos_public.Prelude.{
  ℕ, zero, suc, ◌+◌, ◌*◌, ◌≤◌, ◌<◌, ◌≡◌, ◌≢◌, refl, ◌∙◌, inl, inr, Bool, true, false, List, ◌∷◌,
  Option, none, some, leb, leb→gt, ◌==◌, if◌then◌else◌, Bool-cases, arith, Has, contains,
  contains_iff, Outcome, Safe, Safe-bind, Safe-map, subst,
}
use ocolos_public.Tracee.{
  Prot, read_write_exec, Kernel, IsKernel, page_of, or_exit, open_text_page, open_bolted_page,
  visit_page, open_pages,
}

module _ (k : Kernel) (exact : Bool) where
  open k use {Space, byte_at, access}

  -- How the pages of a set and the address space may change: the set grows, its pages are open if
  -- they were, bytes on its old pages stay, and so do those off its new pages. Where `exact`, the
  -- opening of a page leaves its bytes, and all bytes stay.
  pub record Grows (pages : List ℕ) (s : Space) (pages' : List ℕ) (s' : Space) : Type 0 where
    pub keeps : (p : ℕ) → Has p pages → Has p pages'
    pub opens :
        ((p : ℕ) → Has p pages → access s p ≡ some read_write_exec)
        → (p : ℕ) → Has p pages'
        → access s' p ≡ some read_write_exec
    pub old_bytes : (a : ℕ) → Has (page_of a) pages → byte_at s' a ≡ byte_at s a
    pub other_bytes : (a : ℕ) → ¬ Has (page_of a) pages' → byte_at s' a ≡ byte_at s a
    pub other_access : (p : ℕ) → ¬ Has p pages' → access s' p ≡ access s p
    pub all_bytes : exact ≡ true → (a : ℕ) → byte_at s' a ≡ byte_at s a

  pub Grows-refl : (pages : List ℕ) (s : Space) → Grows pages s pages s
  Grows-refl pages s = record {
    keeps = λ p h. h;
    opens = λ o. o;
    old_bytes = λ a h. refl;
    other_bytes = λ a h. refl;
    other_access = λ p h. refl;
    all_bytes = λ x a. refl;
  }

  pub Grows-trans :
      {p₁ p₂ p₃ : List ℕ} {s₁ s₂ s₃ : Space}
      → Grows p₁ s₁ p₂ s₂
      → Grows p₂ s₂ p₃ s₃
      → Grows p₁ s₁ p₃ s₃
  Grows-trans g h = record {
    keeps = λ p i. h.keeps p (g.keeps p i);
    opens = λ o. h.opens (g.opens o);
    old_bytes = λ a i. h.old_bytes a (g.keeps _ i) ∙ g.old_bytes a i;
    other_bytes = λ a n. h.other_bytes a n ∙ g.other_bytes a (λ i. n (h.keeps _ i));
    other_access = λ p n. h.other_access p n ∙ g.other_access p (λ i. n (h.keeps p i));
    all_bytes = λ x a. h.all_bytes x a ∙ g.all_bytes x a;
  }

  -- What the loop wants of the function that opens a page.
  abbrev pub Opens : Type 0 → (Space → ℕ → Outcome Space) → Type 0
  Opens E open_page =
      (s : Space) (page : ℕ)
      → Safe E
          (λ s'.
            ((q : ℕ) → access s' q ≡ (if q == page then some read_write_exec else access s q))
            × ((a : ℕ) → page_of a ≢ page → byte_at s' a ≡ byte_at s a)
            × (exact ≡ true → (a : ℕ) → byte_at s' a ≡ byte_at s a))
          (open_page s page)

  module _ (E : Type 0) (open_page : Space → ℕ → Outcome Space) (opens : Opens E open_page) where
    Grows-open :
        (page : ℕ) (pages : List ℕ) (s s' : Space)
        → contains pages page ≡ false
        → ((q : ℕ) → access s' q ≡ (if q == page then some read_write_exec else access s q))
        → ((a : ℕ) → page_of a ≢ page → byte_at s' a ≡ byte_at s a)
        → (exact ≡ true → (a : ℕ) → byte_at s' a ≡ byte_at s a)
        → Grows pages s (page ∷ pages) s'
    Grows-open page pages s s' new acc bytes all = record {
      keeps = λ p h. inr h;
      opens =
          λ o p h. elim h [ inl e ↦ ground (arith, acc p) | inr i ↦ ground (arith, acc p, o p i) ];
      old_bytes = λ a i. bytes a (λ e.
          let found = (contains_iff pages page).1 (subst (λ p. Has p pages) e i) in
          cc (new, found));
      other_bytes = λ a n. bytes a (λ e. n (inl e));
      other_access = λ p n. elim (Bool-cases (p == page)) [
        | inl same ↦ absurd (n (inl (ground arith)))
        | inr other ↦ ground (arith, acc p)
      ];
      all_bytes = all;
    }

    visit_page-Grows :
        (page : ℕ) (pages : List ℕ) (s : Space)
        → Safe E
            (λ (pages', s'). Grows pages s pages' s' × Has page pages')
            (visit_page k open_page page pages s)
    unfolding visit_page
    visit_page-Grows page pages s = elim (Bool-cases (contains pages page)) [
      | inl old ↦ rw (old, visit_page) (Grows-refl pages s, (contains_iff pages page).0 old)
      | inr new ↦
          rw (new, visit_page)
            (Safe-bind E _ _ (open_page s page) _ (opens s page)
              (λ s' (acc, bytes, all). (Grows-open page pages s s' new acc bytes all, inl refl)))
    ]

    -- With rounds enough the loop opens every page that starts at `page + 4096 * i` for a multiple
    -- of 4096 between `offset` and `last`.
    pub open_pages-Grows :
        (rounds offset last page : ℕ) (pages : List ℕ) (s : Space)
        → last < offset + 4096 * rounds
        → Safe E
            (λ (pages', s').
              Grows pages s pages' s'
              × ((i : ℕ) → offset + 4096 * i ≤ last → Has (offset + 4096 * i + page) pages'))
            (open_pages k open_page rounds offset last page pages s)
    unfolding open_pages
    open_pages-Grows zero offset last page pages s h =
        (Grows-refl pages s, λ i le. absurd (omega arith))
    open_pages-Grows (suc rounds) offset last page pages s h = elim (Bool-cases (leb offset last)) [
      | inl more ↦ rw more (
          Safe-bind E (λ (pages₁, s₁). Grows pages s pages₁ s₁ × Has (offset + page) pages₁) _
            (visit_page k open_page (offset + page) pages s) _
            (visit_page-Grows (offset + page) pages s)
            (λ (pages₁, s₁) (g, found).
              Safe-map E _ _ (open_pages k open_page rounds (offset + 4096) last page pages₁ s₁)
                (open_pages-Grows rounds (offset + 4096) last page pages₁ s₁ (omega arith))
                (λ (pages₂, s₂) (g', rest).
                  (Grows-trans g g', reached pages₂ (g'.keeps _ found) rest))))
      | inr over ↦
          rw over (Grows-refl pages s, λ i le. absurd (omega (arith, leb→gt offset last over)))
    ]
      where
        reached :
            (pages₂ : List ℕ)
            → Has (offset + page) pages₂
            → ((i : ℕ)
                → offset + 4096 + 4096 * i ≤ last
                → Has (offset + 4096 + 4096 * i + page) pages₂)
            → (i : ℕ) → offset + 4096 * i ≤ last
            → Has (offset + 4096 * i + page) pages₂
        reached pages₂ found rest zero le = subst (λ p. Has p pages₂) (omega arith) found
        reached pages₂ found rest (suc i) le =
            subst (λ p. Has p pages₂) (omega arith) (rest i (omega arith))

-- A call of the kernel failed: mmap or mprotect.
pub data Refused (k : Kernel) : Type 0 where
  mmap_refused : {s : k.Space} {page : ℕ} {prot : Prot} → k.mmap s page prot ≡ none → Refused k
  mprotect_refused :
      {s : k.Space} {page : ℕ} {prot : Prot} → k.mprotect s page prot ≡ none → Refused k

or_exit-Safe :
    {A : Type 0} (E : Type 0) (o : Option A) → (o ≡ none → E) → Safe E (λ a. o ≡ some a) (or_exit o)
or_exit-Safe E none f = f refl
or_exit-Safe E (some a) f = refl

module _ (k : Kernel) (laws : IsKernel k) where
  pub or_exit-mprotect :
      (s : k.Space) (page : ℕ) (prot : Prot)
      → Safe (Refused k) (λ s'. k.mprotect s page prot ≡ some s') (or_exit (k.mprotect s page prot))
  or_exit-mprotect s page prot =
      or_exit-Safe (Refused k) (k.mprotect s page prot) (λ e. mprotect_refused e)

  or_exit-mmap :
      (s : k.Space) (page : ℕ) (prot : Prot)
      → Safe (Refused k) (λ s'. k.mmap s page prot ≡ some s') (or_exit (k.mmap s page prot))
  or_exit-mmap s page prot = or_exit-Safe (Refused k) (k.mmap s page prot) (λ e. mmap_refused e)

  pub open_text_page-Opens : Opens k true (Refused k) (open_text_page k)
  unfolding open_text_page
  open_text_page-Opens s page =
      Safe-map (Refused k) _ _ (or_exit (k.mprotect s page read_write_exec))
        (or_exit-mprotect s page read_write_exec)
        (λ s' e. (
          (λ q. laws.mprotect_access s s' page q read_write_exec e),
          (λ a n. laws.mprotect_bytes s s' page a read_write_exec e),
          λ x a. laws.mprotect_bytes s s' page a read_write_exec e,
        ))

  pub open_bolted_page-Opens : Opens k false (Refused k) (open_bolted_page k)
  unfolding open_bolted_page
  open_bolted_page-Opens s page =
      Safe-bind (Refused k) (λ s'. k.mmap s page read_write_exec ≡ some s') _
        (or_exit (k.mmap s page read_write_exec)) _ (or_exit-mmap s page read_write_exec)
        (λ s₁ e₁.
          Safe-map (Refused k) _ _ (or_exit (k.mprotect s₁ page read_write_exec))
            (or_exit-mprotect s₁ page read_write_exec)
            (λ s₂ e₂. (
              (λ q. ground (
                arith,
                laws.mprotect_access s₁ s₂ page q read_write_exec e₂,
                laws.mmap_access s s₁ page q read_write_exec e₁,
              )),
              (λ a n.
                  laws.mprotect_bytes s₁ s₂ page a read_write_exec e₂
                  ∙ laws.mmap_bytes s s₁ page a read_write_exec e₁ n),
              λ x. cc,
            )))
