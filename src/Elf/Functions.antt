-- ===== src/Elf/Functions.antt =====
-- The file of functions that write_functions makes, as records.
use ocolos_public.Prelude.{
  ℕ, ◌≡◌, refl, ap, ◌∙◌, Bool, inl, inr, true, false, List, [], ◌∷◌, Option, none, some, ◌==◌,
  Bool-cases, if◌then◌else◌, lookup, assign, lookup-assign, Has, subst, done,
}
use ocolos_public.Records.{Record, write_record, write_records}
use ocolos_public.Patch.Selection.{Among}
use ocolos_public.Elf.{
  Symbol, Binary, all_symbols, insert_symbols, elf_symbols, write_addrs, write_functions,
}
use ocolos_public.Elf.Cut.{IsPlaced, symbol_code, function_bytes-IsPlaced}

-- The last symbol of a function at the address.
unfoldable pub last_function : ℕ → List Symbol → Option Symbol
last_function a [] = none
last_function a (s ∷ symbols) = elim (last_function a symbols) [
  | none ↦ if s.is_text then (if s.address == a then some s else none) else none
  | some t ↦ some t
]

abbrev or_before : Option Symbol → Option Symbol → Option Symbol
or_before none before = before
or_before (some t) before = some t

-- One symbol more, by whether it is one of a function.
insert_one :
    (a : ℕ) (m : List (ℕ × Symbol)) (s : Symbol) (text : Bool) (later : Option Symbol)
    → or_before later (lookup a (if text then assign s.address s m else m))
      ≡ or_before
          (elim later [
            | none ↦ if text then (if s.address == a then some s else none) else none
            | some t ↦ some t
          ])
          (lookup a m)
insert_one a m s true none = elim (Bool-cases (s.address == a)) [
  | inl same ↦ lookup-assign s.address a s m ∙ rw same refl
  | inr differs ↦ lookup-assign s.address a s m ∙ rw differs refl
]
insert_one a m s true (some t) = refl
insert_one a m s false none = refl
insert_one a m s false (some t) = refl

lookup-insert_symbols :
    (a : ℕ) (m : List (ℕ × Symbol)) (symbols : List Symbol)
    → lookup a (insert_symbols m symbols) ≡ or_before (last_function a symbols) (lookup a m)
unfolding insert_symbols last_function
lookup-insert_symbols a m [] = refl
lookup-insert_symbols a m (s ∷ symbols) =
    lookup-insert_symbols a (if s.is_text then assign s.address s m else m) symbols
    ∙ insert_one a m s s.is_text (last_function a symbols)

-- The map of init has at each address the last symbol of a function there, the dynamic ones last.
pub lookup-elf_symbols :
    (b : Binary) (a : ℕ) → lookup a (elf_symbols b) ≡ last_function a (all_symbols b)
unfolding elf_symbols lookup
lookup-elf_symbols b a =
    lookup-insert_symbols a [] (all_symbols b) ∙ alone (last_function a (all_symbols b))
  where
    alone : (o : Option Symbol) → or_before o none ≡ o
    alone none = refl
    alone (some t) = refl

module _ (b : Binary) where
  abbrev pub function_record : ℕ → Symbol → Record
  function_record a s = record { address = a; code = symbol_code b s }

  -- The records of the addresses that have a symbol.
  unfoldable pub function_records : List (ℕ × Symbol) → List ℕ → List Record
  function_records symbols [] = []
  function_records symbols (a ∷ addrs) =
      let rest = function_records symbols addrs in
      elim (lookup a symbols) [ none ↦ rest | some s ↦ function_record a s ∷ rest ]

  -- All symbols at the addresses lie in the file.
  abbrev pub ArePlaced : List (ℕ × Symbol) → List ℕ → Type 0
  ArePlaced symbols addrs =
      (a : ℕ) (s : Symbol) → Has a addrs → lookup a symbols ≡ some s → IsPlaced b s

  write_addrs-records :
      (symbols : List (ℕ × Symbol)) (addrs : List ℕ)
      → ArePlaced symbols addrs
      → write_addrs b symbols addrs ≡ done (write_records (function_records symbols addrs))
  write_addrs-records symbols [] h = unfold write_addrs function_records write_records in refl
  write_addrs-records symbols (a ∷ addrs) h =
      step a addrs (lookup a symbols) refl (λ s e. h a s (inl refl) e)
        (write_addrs-records symbols addrs (λ x s i e. h x s (inr i) e))
    where
      step :
          (a : ℕ) (addrs : List ℕ) (o : Option Symbol)
          → lookup a symbols ≡ o
          → ((s : Symbol) → o ≡ some s → IsPlaced b s)
          → write_addrs b symbols addrs ≡ done (write_records (function_records symbols addrs))
          → write_addrs b symbols (a ∷ addrs)
            ≡ done (write_records (function_records symbols (a ∷ addrs)))
      step a addrs none e placed ih =
          unfold write_addrs function_records in rw (e, write_addrs, function_records) ih
      step a addrs (some s) e placed ih =
          unfold write_addrs function_records write_records write_record in
          rw (e, write_addrs, function_records)
            (rw (function_bytes-IsPlaced b s (placed s refl), ih) refl)

  -- The record of an address, if it has this symbol, and then the others.
  Among-record :
      (a : ℕ) (s : Symbol) (o : Option Symbol) (rest : List Record)
      → o ≡ some s
      → Among (function_record a s) (elim o [ none ↦ rest | some t ↦ function_record a t ∷ rest ])
  Among-record a s none rest e = cc
  Among-record a s (some t) rest e = inl (ap (function_record a) (same e))
    where
      same : some t ≡ some s → s ≡ t
      same e = cc

  Among-rest :
      (x : ℕ) (r : Record) (o : Option Symbol) (rest : List Record)
      → Among r rest
      → Among r (elim o [ none ↦ rest | some t ↦ function_record x t ∷ rest ])
  Among-rest x r none rest among = among
  Among-rest x r (some t) rest among = inr among

  -- The records are those of the symbols at the addresses.
  pub function_records-Among :
      (symbols : List (ℕ × Symbol)) (addrs : List ℕ) (a : ℕ) (s : Symbol)
      → Has a addrs
      → lookup a symbols ≡ some s
      → Among (function_record a s) (function_records symbols addrs)
  unfolding function_records
  function_records-Among symbols [] a s h e = absurd h
  function_records-Among symbols (x ∷ addrs) a s (inl same) e =
      subst (λ y. Among (function_record a s) (function_records symbols (y ∷ addrs))) same
        (Among-record a s (lookup a symbols) (function_records symbols addrs) e)
  function_records-Among symbols (x ∷ addrs) a s (inr i) e =
      Among-rest x (function_record a s) (lookup x symbols) (function_records symbols addrs)
        (function_records-Among symbols addrs a s i e)

  pub write_functions-records :
      (addrs : List ℕ)
      → ArePlaced (elf_symbols b) addrs
      → write_functions b addrs ≡ done (write_records (function_records (elf_symbols b) addrs))
  unfolding write_functions
  write_functions-records addrs h = write_addrs-records (elf_symbols b) addrs h
