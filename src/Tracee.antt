-- ===== src/Tracee.antt =====
-- src/replace_function.cpp: the library in the target process, which copies machine code into it.
pub mod Pages
pub mod Insertion
pub mod Files
pub mod Machine
pub mod Replacement
use ocolos_public.Prelude.{
  ℕ, zero, suc, ◌+◌, ◌-◌, ◌*◌, ◌/◌, ◌%◌, ◌^◌, ◌&&◌, ◌<◌, ◌≡◌, ◌≢◌, Bool, true, false, List, [], ◌∷◌,
  ◌++◌, Option, none, some, leb, ltb, ◌==◌, if◌then◌else◌, Bytes, length, take, drop, contains,
  Outcome, done, exited, undefined, ◌>>=◌,
}
use ocolos_public.Records.{get_long}

-- The protection of a page: PROT_READ, PROT_WRITE, PROT_EXEC.
pub record Prot : Type 0 where
  pub read : Bool
  pub write : Bool
  pub exec : Bool

abbrev pub read_write_exec : Prot
read_write_exec = record { read = true; write = true; exec = true }

abbrev pub read_exec : Prot
read_exec = record { read = true; write = false; exec = true }

-- `(long)address & (~MMAP_PAGE_OFFSET)`, with pages of 4096 bytes.
abbrev pub page_of : ℕ → ℕ
page_of a = a / 4096 * 4096

-- The kernel's side of an address space. `none` is the failure that each call documents, and for
-- `store` the fault of a write to a page that may not be written.
pub record Kernel : Type 1 where
  pub Space : Type 0
  pub byte_at : Space → ℕ → ℕ
  pub access : Space → ℕ → Option Prot
  pub mmap : Space → ℕ → Prot → Option Space
  pub mprotect : Space → ℕ → Prot → Option Space
  pub store : Space → ℕ → ℕ → Option Space

-- What mmap(2) with MAP_FIXED_NOREPLACE, mprotect(2) and the memory document.
pub record IsKernel (k : Kernel) : Type 0 where
  pub mmap_access :
      (s s' : k.Space) (p q : ℕ) (prot : Prot)
      → k.mmap s p prot ≡ some s'
      → k.access s' q ≡ (if q == p then some prot else k.access s q)
  pub mmap_bytes :
      (s s' : k.Space) (p a : ℕ) (prot : Prot)
      → k.mmap s p prot ≡ some s'
      → page_of a ≢ p
      → k.byte_at s' a ≡ k.byte_at s a
  pub mprotect_access :
      (s s' : k.Space) (p q : ℕ) (prot : Prot)
      → k.mprotect s p prot ≡ some s'
      → k.access s' q ≡ (if q == p then some prot else k.access s q)
  pub mprotect_bytes :
      (s s' : k.Space) (p a : ℕ) (prot : Prot)
      → k.mprotect s p prot ≡ some s'
      → k.byte_at s' a ≡ k.byte_at s a
  pub store_writes :
      (s : k.Space) (a b : ℕ)
      → k.access s (page_of a) ≡ some read_write_exec
      → (s' : k.Space) × (k.store s a b ≡ some s')
  pub store_bytes :
      (s s' : k.Space) (a b c : ℕ)
      → k.store s a b ≡ some s'
      → k.byte_at s' c ≡ (if c == a then b else k.byte_at s c)
  pub store_access :
      (s s' : k.Space) (a b p : ℕ) → k.store s a b ≡ some s' → k.access s' p ≡ k.access s p

abbrev pub or_exit {ℓ} : {A : Type ℓ} → Option A → Outcome A
or_exit none = exited
or_exit (some a) = done a

-- The buffer after fread: what the file still had, and then what the stack held before.
unfoldable pub fill : (ℕ → ℕ) → ℕ → ℕ → Bytes
fill junk i zero = []
fill junk i (suc n) = junk i ∷ fill junk (i + 1) n

-- The sum of two longs, each held by its 64 bits as a number; an overflow is undefined.
unfoldable pub add_long : ℕ → ℕ → Outcome ℕ
add_long a b =
    let sum = a + b in
    if ltb a (2 ^ 63) && ltb b (2 ^ 63)
    then (if ltb sum (2 ^ 63) then done sum else undefined)
    else if leb (2 ^ 63) a && leb (2 ^ 63) b
    then (if ltb sum (3 * 2 ^ 63) then undefined else done (sum - 2 ^ 64))
    else done (sum % 2 ^ 64)

module _ (k : Kernel) where
  open k use {Space, mmap, mprotect, store}

  -- `memcpy(addr, machine_code, len)`, a byte at a time.
  unfoldable pub memcpy : Space → ℕ → Bytes → Outcome Space
  memcpy s addr [] = done s
  memcpy s addr (b ∷ code) = elim (store s addr b) [
    | none ↦ undefined
    | some s' ↦ memcpy s' (addr + 1) code
  ]

  -- What makes a new page writable: mprotect in the original text section; mmap and then mprotect
  -- for BOLTed code.
  unfoldable pub open_text_page : Space → ℕ → Outcome Space
  open_text_page s page = or_exit (mprotect s page read_write_exec)

  unfoldable pub open_bolted_page : Space → ℕ → Outcome Space
  open_bolted_page s page = do
    s' ← or_exit (mmap s page read_write_exec)
    or_exit (mprotect s' page read_write_exec)

  module _ (open_page : Space → ℕ → Outcome Space) where
    -- One page of the loop over the pages: opened unless the set has it.
    unfoldable pub visit_page : ℕ → List ℕ → Space → Outcome (List ℕ × Space)
    visit_page new_addr allocated_pages s =
        if contains allocated_pages new_addr
        then done (allocated_pages, s)
        else open_page s new_addr >>= λ s'. done (new_addr ∷ allocated_pages, s')

    -- `for (offset = 0; offset <= last; offset += MMAP_PAGE_SIZE)`, on the rounds left.
    unfoldable pub open_pages : ℕ → ℕ → ℕ → ℕ → List ℕ → Space → Outcome (List ℕ × Space)
    unfolding visit_page
    open_pages zero offset last page allocated_pages s = done (allocated_pages, s)
    open_pages (suc rounds) offset last page allocated_pages s =
        let more =
          (visit_page (offset + page) allocated_pages s >>= λ (pages, s').
          open_pages rounds (offset + 4096) last page pages s') in
        if leb offset last then more else done (allocated_pages, s)

    -- The body of the loop over the records, once one is read and `base_n` is added.
    unfoldable pub insert_record : ℕ → Bytes → List ℕ → Space → Outcome (List ℕ × Space)
    unfolding open_pages memcpy
    insert_record address machine_code allocated_pages s =
        let last = address + length machine_code - page_of address + 4096 in
        do
          (pages, s') ← open_pages (last / 4096 + 1) 0 last (page_of address) allocated_pages s
          s'' ← memcpy s' address machine_code
          done (pages, s'')

    -- `while(true)`, on fuel. A length that is no positive long makes no array; a code that is cut
    -- short is taken as it is, as fread then returns a positive number.
    unfoldable pub insert_loop : (ℕ → ℕ) → ℕ → ℕ → Bytes → List ℕ → Space → Outcome (List ℕ × Space)
    unfolding insert_record fill get_long add_long
    insert_loop junk base_n zero file allocated_pages s = undefined
    insert_loop junk base_n (suc fuel) file allocated_pages s = elim (get_long file) [
      | none ↦ done (allocated_pages, s)
      | some (address, file₁) ↦ elim (get_long file₁) [
        | none ↦ exited
        | some (len, file₂) ↦
            let machine_code = take len file₂ ++ fill junk (length file₂) (len - length file₂) in
            let round =
              (add_long address base_n >>= λ target.
              insert_record target machine_code allocated_pages s >>= λ (pages, s').
              insert_loop junk base_n fuel (drop len file₂) pages s') in
            if leb (2 ^ 63) len
            then undefined
            else if length (take len file₂) == 0
            then exited
            else round
      ]
    ]
