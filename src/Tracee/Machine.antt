-- ===== src/Tracee/Machine.antt =====
-- The insertion of a file of records: the bytes that it leaves in memory.
use ocolos_public.Prelude.{
  ℕ, zero, suc, ◌+◌, ◌-◌, ◌^◌, ◌<◌, ◌≡◌, refl, Bool, false, List, [], ◌∷◌, ◌++◌, Option, none, some,
  leb, ltb, true, done, ◌==◌, arith, Bytes, length, length-append, append-nil, append_assoc, All,
  take-length_append, drop-length_append, Outcome, ◌>>=◌, Safe, Safe-bind, Safe-map,
}
use ocolos_public.Records.{Record, IsRecord, put_long, get_long, write_record, write_records}
use ocolos_public.Records.Laws.{get_long-put_long}
use ocolos_public.Tracee.{Kernel, IsKernel, insert_record, insert_loop, fill, add_long}
use ocolos_public.Tracee.Pages.{Opens}
use ocolos_public.Tracee.Insertion.{
  code_byte, later, Inserted, Inserted-none, Inserted-trans, AreOpen, insert_record-Inserted,
}

write_records-cons :
    (r : Record) (rs : List Record) → write_records (r ∷ rs) ≡ write_record r ++ write_records rs
unfolding write_records
write_records-cons r rs = refl

-- The byte that the records put at an address: that of the last record that reaches it.
abbrev pub records_byte : ℕ → List Record → ℕ → Option ℕ
records_byte base_n [] a = none
records_byte base_n (r ∷ rs) a =
    later (records_byte base_n rs a) (code_byte (r.address + base_n) r.code a)

-- The record's end, at its place in the process, is a positive long, with two pages behind it.
abbrev pub Fits : ℕ → Record → Type 0
Fits base_n r = r.address + base_n + length r.code + 8192 < 2 ^ 63

pub All-Fits : (rs : List Record) → All IsRecord rs → All (Fits 0) rs
All-Fits [] h = tt
All-Fits (r ∷ rs) (h, hs) = (omega (arith, h.fits), All-Fits rs hs)

add_long-Fits :
    (base_n : ℕ) (r : Record)
    → Fits base_n r
    → add_long r.address base_n ≡ done (r.address + base_n)
unfolding add_long
add_long-Fits base_n r h =
    let a : ltb r.address (2 ^ 63) ≡ true = ground arith in
    let b : ltb base_n (2 ^ 63) ≡ true = ground arith in
    let c : ltb (r.address + base_n) (2 ^ 63) ≡ true = ground arith in rw (a, b, c) refl

module _ (k : Kernel) (open_page : k.Space → ℕ → Outcome k.Space) (junk : ℕ → ℕ) (base_n : ℕ) where
  get_long-address :
      (r : Record) (rest : Bytes)
      → IsRecord r
      → get_long (write_record r ++ rest)
        ≡ some (r.address, put_long (length r.code) ++ (r.code ++ rest))
  unfolding write_record
  get_long-address r rest h =
      rw (append_assoc, append_assoc) (get_long-put_long r.address _ (omega (arith, h.fits)))

  -- One round reads one whole record.
  insert_loop-record :
      (fuel : ℕ) (r : Record) (rest : Bytes) (pages : List ℕ) (s : k.Space)
      → IsRecord r
      → Fits base_n r
      → insert_loop k open_page junk base_n (suc fuel) (write_record r ++ rest) pages s ≡ (
          insert_record k open_page (r.address + base_n) r.code pages s >>= λ (pages', s').
          insert_loop k open_page junk base_n fuel rest pages' s')
  unfolding insert_loop fill
  insert_loop-record fuel r rest pages s h fits =
      let positive : leb (2 ^ 63) (length r.code) ≡ false = ground (arith, h.fits) in
      let some_code : (length r.code == 0) ≡ false = ground (arith, h.some_code) in
      let whole : length r.code - length (r.code ++ rest) ≡ 0 =
        omega (arith, length-append {0} r.code rest) in
      let read = get_long-put_long (length r.code) (r.code ++ rest) (omega (arith, h.fits)) in
      rw (get_long-address r rest h, insert_loop)
        (rw read (
          rw (take-length_append, drop-length_append, whole, positive, some_code)
            (rw (append-nil, add_long-Fits base_n r fits))))

module _ (k : Kernel) (laws : IsKernel k) (exact : Bool) (E : Type 0)
    (open_page : k.Space → ℕ → Outcome k.Space) (opens : Opens k exact E open_page) (junk : ℕ → ℕ)
    (base_n : ℕ) where
  -- On a file of records and with fuel for each the loop is defined, and leaves their bytes.
  pub insert_loop-Inserted :
      (rs : List Record) (fuel : ℕ) (pages : List ℕ) (s : k.Space)
      → All IsRecord rs
      → All (Fits base_n) rs
      → length rs < fuel
      → AreOpen k laws exact E open_page opens pages s
      → Safe E
          (λ (pages', s'). Inserted k exact (records_byte base_n rs) pages s pages' s')
          (insert_loop k open_page junk base_n fuel (write_records rs) pages s)
  insert_loop-Inserted rs zero pages s h fits enough are_open = absurd (omega arith)
  insert_loop-Inserted [] (suc fuel) pages s h fits enough are_open =
      unfold insert_loop write_records get_long in Inserted-none k exact pages s
  insert_loop-Inserted (r ∷ rs) (suc fuel) pages s (h, hs) (f, fs) enough are_open =
      rw
        (
          write_records-cons r rs,
          insert_loop-record k open_page junk base_n fuel r (write_records rs) pages s h f,
        )
        (Safe-bind E _ _ (insert_record k open_page (r.address + base_n) r.code pages s) _
          (insert_record-Inserted k laws exact E open_page opens (r.address + base_n) r.code pages s
            are_open)
          (λ (pages₁, s₁) one.
            Safe-map E _ _ (insert_loop k open_page junk base_n fuel (write_records rs) pages₁ s₁)
              (insert_loop-Inserted rs fuel pages₁ s₁ hs fs (omega arith) (one.opens are_open))
              (λ (pages₂, s₂) more. Inserted-trans k exact one more)))
