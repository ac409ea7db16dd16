-- ===== src/Patch/Output.antt =====
-- The file that extract_call_sites writes, as records.
use ocolos_public.Prelude.{
  ℕ, ◌≡◌, refl, sym, inl, inr, Bool, List, [], ◌∷◌, ◌++◌, Option, none, some, if◌then◌else◌, lookup,
  has_key, append_assoc, append-nil, Bool-cases,
}
use ocolos_public.Functions.{FuncInfo, Funcs}
use ocolos_public.Records.{Record, write_record, write_records}
use ocolos_public.CallSites.{CallSite, Sites, SitesList}
use ocolos_public.Patch.{site_at, call_code, write_call, write_callers, extract_call_sites}

module _ (unset : CallSite) (sites : Sites) (stack : Funcs) where
  -- The record for one call site.
  abbrev pub call_record : FuncInfo → ℕ → Record
  call_record moved addr = record {
    address = addr;
    code = call_code moved.moved_addr (site_at unset sites addr).next_addr;
  }

  abbrev pub is_patched : ℕ → Bool
  is_patched addr = has_key (site_at unset sites addr).belonged_func stack

  abbrev pub one_record : FuncInfo → ℕ → List Record
  one_record moved addr = if is_patched addr then call_record moved addr ∷ [] else []

  unfoldable pub caller_records : FuncInfo → List ℕ → List Record
  caller_records moved [] = []
  caller_records moved (addr ∷ addrs) = one_record moved addr ++ caller_records moved addrs

  unfoldable pub call_records : SitesList → Funcs → List Record
  unfolding caller_records
  call_records groups [] = []
  call_records groups ((k, moved) ∷ moved_func) =
      let rest = call_records groups moved_func in
      elim (lookup k groups) [ none ↦ rest | some addrs ↦ caller_records moved addrs ++ rest ]

  write_records-append :
      (rs ts : List Record) → write_records (rs ++ ts) ≡ write_records rs ++ write_records ts
  unfolding write_records
  write_records-append [] ts = refl
  write_records-append (r ∷ rs) ts =
      rw (write_records-append rs ts)
        (sym (append_assoc (write_record r) (write_records rs) (write_records ts)))

  write_call-one_record :
      (moved : FuncInfo) (addr : ℕ)
      → write_call unset sites stack moved addr ≡ write_records (one_record moved addr)
  unfolding write_call write_records write_record
  write_call-one_record moved addr = elim (Bool-cases (is_patched addr)) [
    | inl on ↦ rw on (sym (append-nil (write_record (call_record moved addr))))
    | inr off ↦ rw off
  ]

  write_callers-caller_records :
      (moved : FuncInfo) (addrs : List ℕ)
      → write_callers unset sites stack moved addrs ≡ write_records (caller_records moved addrs)
  write_callers-caller_records moved [] = unfold write_callers write_records caller_records in refl
  write_callers-caller_records moved (addr ∷ addrs) =
      step moved addr addrs (write_callers-caller_records moved addrs)
    where
      step :
          (moved : FuncInfo) (addr : ℕ) (addrs : List ℕ)
          → write_callers unset sites stack moved addrs ≡ write_records (caller_records moved addrs)
          → write_callers unset sites stack moved (addr ∷ addrs)
            ≡ write_records (caller_records moved (addr ∷ addrs))
      step moved addr addrs ih =
          unfold write_callers caller_records in
          rw (write_call-one_record moved addr, ih)
            (sym (write_records-append (one_record moved addr) (caller_records moved addrs)))

  -- The file is the sequence of these records.
  pub extract_call_sites-records :
      (groups : SitesList) (moved_func : Funcs)
      → extract_call_sites unset sites groups moved_func stack
        ≡ write_records (call_records groups moved_func)
  extract_call_sites-records groups [] =
      unfold extract_call_sites call_records write_records in refl
  extract_call_sites-records groups ((k, moved) ∷ moved_func) =
      go (lookup k groups) refl (extract_call_sites-records groups moved_func)
    where
      go :
          (o : Option (List ℕ))
          → lookup k groups ≡ o
          → extract_call_sites unset sites groups moved_func stack
            ≡ write_records (call_records groups moved_func)
          → extract_call_sites unset sites groups ((k, moved) ∷ moved_func) stack
            ≡ write_records (call_records groups ((k, moved) ∷ moved_func))
      go none e ih =
          unfold extract_call_sites call_records in rw (e, extract_call_sites, call_records) ih
      go (some addrs) e ih =
          unfold extract_call_sites call_records in
          rw (e, extract_call_sites, call_records)
            (rw (write_callers-caller_records moved addrs, ih)
              (sym (
                write_records-append (caller_records moved addrs)
                  (call_records groups moved_func))))
