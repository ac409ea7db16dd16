-- ===== src/Elf/Tables.antt =====
-- The file of v-tables that write_vtable makes: one record for each address, from its first v-table
-- symbol.
use ocolos_public.Prelude.{
  ℕ, ◌≡◌, Bool, true, false, not, ◌&&◌, ◌||◌, List, [], ◌∷◌, Option, none, some, ◌==◌,
  if◌then◌else◌, contains, All,
}
use ocolos_public.Records.{Record}
use ocolos_public.Elf.{Symbol, Binary, Vtable, is_vtable_name}
use ocolos_public.Elf.Cut.{IsPlaced, symbol_code}
use ocolos_public.Elf.Functions.{function_record}

-- The symbol is that of a v-table, and stands in the file.
abbrev pub is_vtable : Symbol → Bool
is_vtable s = not (not (is_vtable_name s.name) || s.is_undefined)

-- The first v-table symbol at an address.
unfoldable pub first_vtable : ℕ → List Symbol → Option Symbol
first_vtable a [] = none
first_vtable a (s ∷ symbols) =
    if is_vtable s && s.address == a then some s else first_vtable a symbols

module _ (b : Binary) where
  abbrev table_of : Symbol → Vtable
  table_of s = record { addr = s.address; contents = symbol_code b s }

  -- All v-tables lie in the file.
  abbrev pub ArePlacedTables : List Symbol → Type 0
  ArePlacedTables symbols = All (λ s. is_vtable s ≡ true → IsPlaced b s) symbols

  -- The tables, by the addresses that were met before.
  unfoldable tables : List ℕ → List Symbol → List Vtable
  tables seen [] = []
  tables seen (s ∷ symbols) =
      if is_vtable s && not (contains seen s.address)
      then table_of s ∷ tables (s.address ∷ seen) symbols
      else tables seen symbols

  -- The records of the tables.
  unfoldable records_of : List Vtable → List Record
  records_of [] = []
  records_of (vt ∷ vtabs) = record { address = vt.addr; code = vt.contents } ∷ records_of vtabs

  -- The record is that of the first v-table symbol at an address that was not met before.
  abbrev IsTableRecord : List ℕ → List Symbol → Record → Type 0
  IsTableRecord seen symbols r =
      (a : ℕ) × (s : Symbol) × (contains seen a ≡ false)
      × (first_vtable a symbols ≡ some s)
      × (r ≡ function_record b a s)
