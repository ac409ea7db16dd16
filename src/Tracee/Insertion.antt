-- ===== src/Tracee/Insertion.antt =====
-- The insertion of one record, and of a file of records: the bytes that it leaves in memory.
use ocolos_public.Prelude.{
  ℕ, zero, suc, ◌+◌, ◌-◌, ◌*◌, ◌/◌, ◌≤◌, ◌<◌, ◌≡◌, refl, ◌∙◌, ◌⊎◌, inl, inr, Bool, true, List, [],
  ◌∷◌, Option, none, some, ◌==◌, if◌then◌else◌, arith, Has, Bytes, length, get_elem?, Outcome, Safe,
  Safe-bind, Safe-map, subst,
}
use ocolos_public.Tracee.{
  read_write_exec, Kernel, IsKernel, page_of, memcpy, open_pages, insert_record,
}
use ocolos_public.Tracee.Pages.{Grows, Opens, open_pages-Grows}

-- The byte that code at an address puts at `a`, if it reaches it.
abbrev pub code_byte : ℕ → Bytes → ℕ → Option ℕ
code_byte address [] a = none
code_byte address (b ∷ code) a = if a == address then some b else code_byte (address + 1) code a

pub code_byte_below :
    (address : ℕ) (code : Bytes) (a : ℕ) → a < address → code_byte address code a ≡ none
code_byte_below address [] a h = refl
code_byte_below address (b ∷ code) a h = ground (arith, code_byte_below (address + 1) code a)

pub code_byte-get_elem? :
    (address : ℕ) (code : Bytes) (i : ℕ) → code_byte address code (address + i) ≡ get_elem? code i
code_byte-get_elem? address [] i = refl
code_byte-get_elem? address (b ∷ code) zero = ground arith
code_byte-get_elem? address (b ∷ code) (suc i) =
    let next : address + suc i ≡ address + 1 + i = omega arith in
    rw next (ground (arith, code_byte-get_elem? (address + 1) code i))

abbrev pub or_byte : Option ℕ → ℕ → ℕ
or_byte none b = b
or_byte (some b) _ = b

module _ (k : Kernel) (laws : IsKernel k) (E : Type 0) where
  open k use {Space, byte_at, access}

  -- All the pages that the code touches are open.
  abbrev Room : Space → ℕ → Bytes → Type 0
  Room s address code =
      (a : ℕ)
      → address ≤ a
      → a < address + length code
      → access s (page_of a) ≡ some read_write_exec

  memcpy-writes :
      (s : Space) (address : ℕ) (code : Bytes)
      → Room s address code
      → Safe E
          (λ s'.
            ((a : ℕ) → byte_at s' a ≡ or_byte (code_byte address code a) (byte_at s a))
            × ((p : ℕ) → access s' p ≡ access s p))
          (memcpy k s address code)
  unfolding memcpy
  memcpy-writes s address [] room = ((λ a. refl), λ p. refl)
  memcpy-writes s address (b ∷ code) room =
      let (s₁, stored) = laws.store_writes s address b (room address (omega arith) (omega arith)) in
      let acc = λ (p : ℕ). laws.store_access s s₁ address b p stored in
      rw (stored, memcpy)
        (Safe-map E _ _ (memcpy k s₁ (address + 1) code)
          (memcpy-writes s₁ (address + 1) code
            (λ a lo hi. acc (page_of a) ∙ room a (omega arith) (omega arith)))
          (λ s₂ (bytes, acc₂). (
            (λ a. ground (
              arith,
              bytes a,
              laws.store_bytes s s₁ address b a stored,
              code_byte_below (address + 1) code a,
            )),
            λ p. acc₂ p ∙ acc p,
          )))

-- The later of two bytes written at one address.
abbrev pub later : Option ℕ → Option ℕ → Option ℕ
later none old = old
later (some b) old = some b

later_cases :
    (x y : Option ℕ) {b : ℕ} → later x y ≡ some b → (x ≡ some b) ⊎ ((x ≡ none) × (y ≡ some b))
later_cases none y e = inr (refl, e)
later_cases (some c) y e = inl e

later-none : (x y : Option ℕ) → later x y ≡ none → (x ≡ none) × (y ≡ none)
later-none none y e = (refl, e)
later-none (some c) y e = cc

module _ (k : Kernel) (exact : Bool) where
  open k use {Space, byte_at, access}

  -- What an insertion leaves: the bytes of `new` in memory, on pages of the set, which are open;
  -- elsewhere the bytes on the old pages and off the new ones, or, where `exact`, all of them.
  pub record Inserted (new : ℕ → Option ℕ) (pages : List ℕ) (s : Space) (pages' : List ℕ)
      (s' : Space) : Type 0 where
    pub keeps : (p : ℕ) → Has p pages → Has p pages'
    pub opens :
        ((p : ℕ) → Has p pages → access s p ≡ some read_write_exec)
        → (p : ℕ) → Has p pages'
        → access s' p ≡ some read_write_exec
    pub written : (a b : ℕ) → new a ≡ some b → byte_at s' a ≡ b
    pub on_pages : (a b : ℕ) → new a ≡ some b → Has (page_of a) pages'
    pub old_bytes : (a : ℕ) → new a ≡ none → Has (page_of a) pages → byte_at s' a ≡ byte_at s a
    pub other_bytes : (a : ℕ) → ¬ Has (page_of a) pages' → byte_at s' a ≡ byte_at s a
    pub other_access : (p : ℕ) → ¬ Has p pages' → access s' p ≡ access s p
    pub all_bytes : exact ≡ true → (a : ℕ) → new a ≡ none → byte_at s' a ≡ byte_at s a

  pub Inserted-none : (pages : List ℕ) (s : Space) → Inserted (λ a. none) pages s pages s
  Inserted-none pages s = record {
    keeps = λ p h. h;
    opens = λ o. o;
    written = λ a b e. cc;
    on_pages = λ a b e. cc;
    old_bytes = λ a n h. refl;
    other_bytes = λ a h. refl;
    other_access = λ p h. refl;
    all_bytes = λ x a n. refl;
  }

  pub Inserted-trans :
      {n₁ n₂ : ℕ → Option ℕ} {p₁ p₂ p₃ : List ℕ} {s₁ s₂ s₃ : Space}
      → Inserted n₁ p₁ s₁ p₂ s₂
      → Inserted n₂ p₂ s₂ p₃ s₃
      → Inserted (λ a. later (n₂ a) (n₁ a)) p₁ s₁ p₃ s₃
  Inserted-trans {n₁} {n₂} f g = record {
    keeps = λ p h. g.keeps p (f.keeps p h);
    opens = λ o. g.opens (f.opens o);
    written = λ a b e. elim (later_cases (n₂ a) (n₁ a) e) [
      | inl new ↦ g.written a b new
      | inr (unset, old) ↦ g.old_bytes a unset (f.on_pages a b old) ∙ f.written a b old
    ];
    on_pages = λ a b e. elim (later_cases (n₂ a) (n₁ a) e) [
      | inl new ↦ g.on_pages a b new
      | inr (unset, old) ↦ g.keeps _ (f.on_pages a b old)
    ];
    old_bytes = λ a e h.
        let (e₂, e₁) = later-none (n₂ a) (n₁ a) e in
        g.old_bytes a e₂ (f.keeps _ h) ∙ f.old_bytes a e₁ h;
    other_bytes = λ a n. g.other_bytes a n ∙ f.other_bytes a (λ h. n (g.keeps _ h));
    other_access = λ p n. g.other_access p n ∙ f.other_access p (λ h. n (g.keeps p h));
    all_bytes = λ x a e.
        let (e₂, e₁) = later-none (n₂ a) (n₁ a) e in g.all_bytes x a e₂ ∙ f.all_bytes x a e₁;
  }

code_byte_range :
    (address : ℕ) (code : Bytes) (a b : ℕ)
    → code_byte address code a ≡ some b
    → (address ≤ a) × (a < address + length code)
code_byte_range address [] a b e = cc
code_byte_range address (c ∷ code) a b e = ground (arith, code_byte_range (address + 1) code a b)

pub code_byte_cases :
    (address : ℕ) (code : Bytes) (a : ℕ)
    → (code_byte address code a ≡ none) ⊎ ((address ≤ a) × (a < address + length code))
code_byte_cases address [] a = inl refl
code_byte_cases address (c ∷ code) a = ground (arith, code_byte_cases (address + 1) code a)

module _ (k : Kernel) (laws : IsKernel k) (exact : Bool) (E : Type 0)
    (open_page : k.Space → ℕ → Outcome k.Space) (opens : Opens k exact E open_page) where
  open k use {Space, byte_at, access}

  abbrev pub AreOpen : List ℕ → Space → Type 0
  AreOpen pages s = (p : ℕ) → Has p pages → access s p ≡ some read_write_exec

  -- The pages that the loop visits hold every byte of the record.
  abbrev AreReached : ℕ → Bytes → List ℕ → Type 0
  AreReached address code pages =
      (a : ℕ) → address ≤ a → a < address + length code → Has (page_of a) pages

  memcpy-Inserted :
      (address : ℕ) (code : Bytes) (pages pages₁ : List ℕ) (s s₁ s₂ : Space)
      → Grows k exact pages s pages₁ s₁
      → AreReached address code pages₁
      → ((a : ℕ) → byte_at s₂ a ≡ or_byte (code_byte address code a) (byte_at s₁ a))
      → ((p : ℕ) → access s₂ p ≡ access s₁ p)
      → Inserted k exact (code_byte address code) pages s pages₁ s₂
  memcpy-Inserted address code pages pages₁ s s₁ s₂ g reached bytes acc = record {
    keeps = g.keeps;
    opens = λ o p h. acc p ∙ g.opens o p h;
    written = λ a b e. ground (arith, bytes a);
    on_pages = λ a b e. let (lo, hi) = code_byte_range address code a b e in reached a lo hi;
    old_bytes = λ a e h. same a e ∙ g.old_bytes a h;
    other_bytes = λ a n. elim (code_byte_cases address code a) [
      | inl e ↦ same a e ∙ g.other_bytes a n
      | inr (lo, hi) ↦ absurd (n (reached a lo hi))
    ];
    other_access = λ p n. acc p ∙ g.other_access p n;
    all_bytes = λ x a e. same a e ∙ g.all_bytes x a;
  }
    where
      same : (a : ℕ) → code_byte address code a ≡ none → byte_at s₂ a ≡ byte_at s₁ a
      same a e = ground (arith, bytes a)

  pub insert_record-Inserted :
      (address : ℕ) (code : Bytes) (pages : List ℕ) (s : Space)
      → AreOpen pages s
      → Safe E
          (λ (pages', s'). Inserted k exact (code_byte address code) pages s pages' s')
          (insert_record k open_page address code pages s)
  unfolding insert_record
  insert_record-Inserted address code pages s are_open =
      let last = address + length code - page_of address + 4096 in
      Safe-bind E _ _ (open_pages k open_page (last / 4096 + 1) 0 last (page_of address) pages s) _
        (open_pages-Grows k exact E open_page opens (last / 4096 + 1) 0 last (page_of address) pages
          s (omega arith))
        (λ (pages₁, s₁) (g, visited).
          let reached = reaches pages₁ visited in
          Safe-bind E _ _ (memcpy k s₁ address code) _
            (memcpy-writes k laws E s₁ address code
              (λ a lo hi. g.opens are_open (page_of a) (reached a lo hi)))
            (λ s₂ (bytes, acc).
              memcpy-Inserted address code pages pages₁ s s₁ s₂ g reached bytes acc))
    where
      reaches :
          (pages₁ : List ℕ)
          → ((i : ℕ)
              → 0 + 4096 * i ≤ address + length code - page_of address + 4096
              → Has (0 + 4096 * i + page_of address) pages₁)
          → AreReached address code pages₁
      reaches pages₁ visited a lo hi =
          subst (λ p. Has p pages₁) (omega arith)
            (visited ((page_of a - page_of address) / 4096) (omega arith))
