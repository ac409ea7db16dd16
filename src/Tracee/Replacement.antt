-- ===== src/Tracee/Replacement.antt =====
-- What the library's functions leave in the target process.
use ocolos_public.Prelude.{
  ℕ, ◌+◌, ◌<◌, ◌≡◌, refl, sym, ◌∙◌, ◌⊎◌, inl, inr, true, false, List, [], ◌∷◌, Option, none, some,
  Bool-cases, Option-cases, contains, contains_iff, arith, Has, length, length-append, All, Safe,
  Safe-bind, Safe-map,
}
use ocolos_public.Records.{Record, IsRecord, le_bytes, put_long, write_records}
use ocolos_public.Tracee.{
  read_write_exec, read_exec, Kernel, IsKernel, page_of, open_text_page, open_bolted_page,
  insert_loop,
}
use ocolos_public.Tracee.Files.{
  insert_code_to_orig_text_sec, seal_pages, insert_bolted_function, insert_call_site,
  insert_v_table, insert_unmoved_func, insert_machine_code,
}
use ocolos_public.Tracee.Pages.{
  Refused, or_exit-mprotect, open_text_page-Opens, open_bolted_page-Opens,
}
use ocolos_public.Tracee.Insertion.{later, Inserted}
use ocolos_public.Tracee.Machine.{records_byte, Fits, All-Fits, insert_loop-Inserted}

length-write_records : (rs : List Record) → length rs < length (write_records rs) + 1
unfolding write_records put_long le_bytes
length-write_records [] = omega arith
length-write_records (r ∷ rs) =
    omega (arith, length-write_records rs, length-append {0} r.code (write_records rs))

-- The byte at an address after bytes were put there.
abbrev pub over : Option ℕ → ℕ → ℕ
over none b = b
over (some b) _ = b

no_page : (P : ℕ → Type 0) (p : ℕ) → Has p [] → P p
no_page P p h = absurd h

module _ (k : Kernel) (laws : IsKernel k) (junk : ℕ → ℕ) where
  open k use {Space, byte_at, access}

  -- What the insertion of records into the original text leaves: their bytes, all other bytes as
  -- they were, and every page that got a byte still open.
  pub record Patched (base_n : ℕ) (rs : List Record) (s s' : Space) : Type 0 where
    pub bytes : (a : ℕ) → byte_at s' a ≡ over (records_byte base_n rs a) (byte_at s a)
    pub still_open :
        (a b : ℕ) → records_byte base_n rs a ≡ some b → access s' (page_of a) ≡ some read_write_exec

  Inserted-Patched :
      (base_n : ℕ) (rs : List Record) (pages : List ℕ) (s s' : Space)
      → Inserted k true (records_byte base_n rs) [] s pages s'
      → Patched base_n rs s s'
  Inserted-Patched base_n rs pages s s' i = record {
    bytes = λ a. elim (Option-cases (records_byte base_n rs a)) [
      | inl e ↦ rw e (i.all_bytes refl a e)
      | inr (b, e) ↦ rw e (i.written a b e)
    ];
    still_open = λ a b e.
        i.opens (no_page (λ p. access s p ≡ some read_write_exec)) (page_of a) (i.on_pages a b e);
  }

  -- On a file of records, each of which ends at its place in the process two pages below 2^63 or
  -- before, insert_code_to_orig_text_sec never faults, exits only where the kernel
  -- refuses a page, and otherwise leaves exactly the bytes of the records: the last record that
  -- reaches an address gives its byte, and all other memory is as before. The pages that it wrote
  -- stay writable and executable.
  pub insert_code_to_orig_text_sec-Patched :
      (base_n : ℕ) (rs : List Record) (s : Space)
      → All IsRecord rs
      → All (Fits base_n) rs
      → Safe
          (Refused k)
          (Patched base_n rs s)
          (insert_code_to_orig_text_sec k junk base_n (write_records rs) s)
  unfolding insert_code_to_orig_text_sec
  insert_code_to_orig_text_sec-Patched base_n rs s h fits =
      Safe-bind (Refused k) _ _
        (insert_loop k (open_text_page k) junk base_n (length (write_records rs) + 1)
          (write_records rs) [] s)
        _
        (insert_loop-Inserted k laws true (Refused k) (open_text_page k)
          (open_text_page-Opens k laws) junk base_n rs (length (write_records rs) + 1) [] s h fits
          (length-write_records rs) (no_page (λ p. access s p ≡ some read_write_exec)))
        (λ (pages, s') i. Inserted-Patched base_n rs pages s s' i)

  -- The bytes stay, the pages of the list are sealed, and all others are as they were.
  record Sealed (pages : List ℕ) (s s' : Space) : Type 0 where
    bytes : (a : ℕ) → byte_at s' a ≡ byte_at s a
    sealed : (p : ℕ) → Has p pages → access s' p ≡ some read_exec
    others : (p : ℕ) → (access s' p ≡ access s p) ⊎ (access s' p ≡ some read_exec)

  Sealed-cons :
      (page : ℕ) (pages : List ℕ) (s s₁ s₂ : Space)
      → k.mprotect s page read_exec ≡ some s₁
      → Sealed pages s₁ s₂
      → Sealed (page ∷ pages) s s₂
  Sealed-cons page pages s s₁ s₂ e t =
      let acc = λ (q : ℕ). laws.mprotect_access s s₁ page q read_exec e in
      record {
        bytes = λ a. t.bytes a ∙ laws.mprotect_bytes s s₁ page a read_exec e;
        sealed =
            λ p h. elim h [ inl same ↦ ground (arith, acc p, t.others p) | inr i ↦ t.sealed p i ];
        others = λ p. ground (arith, acc p, t.others p);
      }

  seal_pages-Sealed :
      (pages : List ℕ) (s : Space) → Safe (Refused k) (Sealed pages s) (seal_pages k junk pages s)
  unfolding seal_pages
  seal_pages-Sealed [] s = record {
    bytes = λ a. refl;
    sealed = λ p h. absurd h;
    others = λ p. inl refl;
  }
  seal_pages-Sealed (page ∷ pages) s =
      Safe-bind (Refused k) _ _ _ (seal_pages k junk pages)
        (or_exit-mprotect k laws s page read_exec)
        (λ s₁ e.
          Safe-map (Refused k) _ _ (seal_pages k junk pages s₁) (seal_pages-Sealed pages s₁)
            (λ s₂ t. Sealed-cons page pages s s₁ s₂ e t))

  -- What the insertion of BOLTed code leaves: the bytes of the records, on pages that may be read
  -- and executed and not written, and no page that may be written and executed but was not before.
  pub record Moved (base_n : ℕ) (rs : List Record) (s s' : Space) : Type 0 where
    pub bytes : (a b : ℕ) → records_byte base_n rs a ≡ some b → byte_at s' a ≡ b
    pub sealed :
        (a b : ℕ) → records_byte base_n rs a ≡ some b → access s' (page_of a) ≡ some read_exec
    pub none_opened :
        (p : ℕ) → access s' p ≡ some read_write_exec → access s p ≡ some read_write_exec

  Inserted-Moved :
      (base_n : ℕ) (rs : List Record) (pages : List ℕ) (s s₁ s₂ : Space)
      → Inserted k false (records_byte base_n rs) [] s pages s₁
      → Sealed pages s₁ s₂
      → Moved base_n rs s s₂
  Inserted-Moved base_n rs pages s s₁ s₂ i t = record {
    bytes = λ a b e. t.bytes a ∙ i.written a b e;
    sealed = λ a b e. t.sealed (page_of a) (i.on_pages a b e);
    none_opened = λ p e. elim (Bool-cases (contains pages p)) [
      | inl here ↦ cc (e, t.sealed p ((contains_iff pages p).0 here))
      | inr away ↦ elim (t.others p) [
        | inl same ↦
            sym (i.other_access p (λ h. cc (away, (contains_iff pages p).1 h))) ∙ sym same ∙ e
        | inr rx ↦ cc (e, rx)
      ]
    ];
  }

  -- On a file of records, each of which ends at its place in the process two pages below 2^63 or
  -- before, insert_bolted_function never faults, exits only where the kernel refuses a
  -- page, and otherwise leaves the bytes of the records on pages that are executable and not
  -- writable; it leaves no page writable and executable that was not so before.
  pub insert_bolted_function-Moved :
      (base_n : ℕ) (rs : List Record) (s : Space)
      → All IsRecord rs
      → All (Fits base_n) rs
      → Safe
          (Refused k)
          (Moved base_n rs s)
          (insert_bolted_function k junk base_n (some (write_records rs)) s)
  unfolding insert_bolted_function
  insert_bolted_function-Moved base_n rs s h fits =
      Safe-bind (Refused k) _ _
        (insert_loop k (open_bolted_page k) junk base_n (length (write_records rs) + 1)
          (write_records rs) [] s)
        _
        (insert_loop-Inserted k laws false (Refused k) (open_bolted_page k)
          (open_bolted_page-Opens k laws) junk base_n rs (length (write_records rs) + 1) [] s h fits
          (length-write_records rs) (no_page (λ p. access s p ≡ some read_write_exec)))
        (λ (pages, s₁) i.
          Safe-map (Refused k) _ _ (seal_pages k junk pages s₁) (seal_pages-Sealed pages s₁)
            (λ s₂ t. Inserted-Moved base_n rs pages s s₁ s₂ i t))

  -- The byte that the four files put at an address: the last file that has one wins.
  abbrev pub files_byte : List Record → List Record → List Record → List Record → ℕ → Option ℕ
  files_byte bolted calls v_table unmoved a =
      later (records_byte 0 unmoved a) (
        later (records_byte 0 v_table a) (later (records_byte 0 calls a) (records_byte 0 bolted a)))

  pub record Replaced (bolted calls v_table unmoved : List Record) (s' : Space) : Type 0 where
    pub bytes : (a b : ℕ) → files_byte bolted calls v_table unmoved a ≡ some b → byte_at s' a ≡ b
    pub still_open :
        (a b : ℕ) → records_byte 0 unmoved a ≡ some b → access s' (page_of a) ≡ some read_write_exec

  -- Where the log can be opened and the four files hold records, insert_machine_code never faults,
  -- exits only where the kernel refuses a page, and otherwise leaves at every address the byte of
  -- the last file, in the order BOLTed functions, call sites, v-tables, unmoved functions, that has
  -- one for it; and the pages that the unmoved functions were written to are still writable and
  -- executable.
  pub insert_machine_code-writes :
      (bolted calls v_table unmoved : List Record) (s : Space)
      → All IsRecord bolted
      → All IsRecord calls
      → All IsRecord v_table
      → All IsRecord unmoved
      → Safe (Refused k) (Replaced bolted calls v_table unmoved) (
          insert_machine_code k junk true
            (some (write_records bolted))
            (some (write_records calls))
            (some (write_records v_table))
            (some (write_records unmoved))
            s)
  unfolding insert_machine_code insert_call_site insert_v_table insert_unmoved_func
  insert_machine_code-writes bolted calls v_table unmoved s h₁ h₂ h₃ h₄ =
      let after = Replaced bolted calls v_table unmoved in
      Safe-bind (Refused k) _ after _ _
        (insert_bolted_function-Moved 0 bolted s h₁ (All-Fits bolted h₁))
        (λ s₁ m.
          Safe-bind (Refused k) _ after _ _
            (insert_code_to_orig_text_sec-Patched 0 calls s₁ h₂ (All-Fits calls h₂))
            (λ s₂ p₂.
              Safe-bind (Refused k) _ after _ _
                (insert_code_to_orig_text_sec-Patched 0 v_table s₂ h₃ (All-Fits v_table h₃))
                (λ s₃ p₃.
                  Safe-bind (Refused k) _ after _ _
                    (insert_code_to_orig_text_sec-Patched 0 unmoved s₃ h₄ (All-Fits unmoved h₄))
                    (λ s₄ p₄. finish s₁ s₂ s₃ s₄ m p₂ p₃ p₄))))
    where
      last_byte :
          (s₁ s₂ s₃ s₄ : Space)
          → Moved 0 bolted s s₁
          → Patched 0 calls s₁ s₂
          → Patched 0 v_table s₂ s₃
          → Patched 0 unmoved s₃ s₄
          → (a b : ℕ) → files_byte bolted calls v_table unmoved a ≡ some b
          → byte_at s₄ a ≡ b
      last_byte s₁ s₂ s₃ s₄ m p₂ p₃ p₄ a b e =
          ground (arith, p₄.bytes a, p₃.bytes a, p₂.bytes a, m.bytes a b)

      finish :
          (s₁ s₂ s₃ s₄ : Space)
          → Moved 0 bolted s s₁
          → Patched 0 calls s₁ s₂
          → Patched 0 v_table s₂ s₃
          → Patched 0 unmoved s₃ s₄
          → Safe (Refused k) (Replaced bolted calls v_table unmoved) (seal_pages k junk [] s₄)
      finish s₁ s₂ s₃ s₄ m p₂ p₃ p₄ = record {
        bytes = last_byte s₁ s₂ s₃ s₄ m p₂ p₃ p₄;
        still_open = p₄.still_open;
      }
