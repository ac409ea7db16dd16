-- ===== src/Functions/Symbols.antt =====
-- get_func_with_original_addr: what the table holds at an address.
use ocolos_public.Prelude.{
  ℕ, ◌||◌, List, [], ◌∷◌, ◌≡◌, refl, ◌∙◌, Option, none, some, ◌==◌, if◌then◌else◌, Bytes, codes,
  str_eq, lookup, lookup-assign, has_key_iff, Safe, arith,
}
use ocolos_public.Utils.{split_line, convert_str_2_long}
use ocolos_public.Functions.{FuncInfo, Funcs, nm_words, nm_lines, get_func_with_original_addr}

abbrev symbol_of : FuncInfo → List Bytes → Option FuncInfo
symbol_of fresh (addr ∷ size ∷ kind ∷ name ∷ more) =
    if str_eq kind (codes "T") || str_eq kind (codes "t")
    then some (record fresh {
      original_addr = convert_str_2_long addr;
      original_size = convert_str_2_long size;
      orig_addr_str = addr;
    })
    else none
symbol_of fresh _ = none

abbrev pub at_addr : ℕ → Option FuncInfo → Option FuncInfo → Option FuncInfo
at_addr a none other = other
at_addr a (some f) other = if f.original_addr == a then some f else other

-- The first function that the lines declare at the address.
unfoldable pub first_symbol : FuncInfo → ℕ → List Bytes → Option FuncInfo
first_symbol fresh a [] = none
first_symbol fresh a (line ∷ lines) =
    at_addr a (symbol_of fresh (split_line line)) (first_symbol fresh a lines)

abbrev pub or_else : Option FuncInfo → Option FuncInfo → Option FuncInfo
or_else (some f) other = some f
or_else none other = other

lookup-nm_words :
    (fresh : FuncInfo) (a : ℕ) (m : Funcs) (ws : List Bytes) (later : Option FuncInfo)
    → or_else (lookup a (nm_words fresh m ws)) later
      ≡ or_else (lookup a m) (at_addr a (symbol_of fresh ws) later)
unfolding nm_words
lookup-nm_words fresh a m (s ∷ size ∷ kind ∷ name ∷ more) later =
    let addr = convert_str_2_long s in
    ground (
      arith,
      has_key_iff addr m,
      lookup-assign addr a
          (record fresh {
            original_addr = addr;
            original_size = convert_str_2_long size;
            orig_addr_str = s;
          })
          m,
    )
lookup-nm_words fresh a m _ later = refl

lookup-nm_lines :
    (fresh : FuncInfo) (a : ℕ) (m : Funcs) (lines : List Bytes)
    → lookup a (nm_lines fresh m lines) ≡ or_else (lookup a m) (first_symbol fresh a lines)
unfolding nm_lines first_symbol
lookup-nm_lines fresh a m [] = ground arith
lookup-nm_lines fresh a m (line ∷ lines) =
    lookup-nm_lines fresh a (nm_words fresh m (split_line line)) lines
    ∙ lookup-nm_words fresh a m (split_line line) (first_symbol fresh a lines)

-- Whatever lines nm prints, get_func_with_original_addr returns a table: an address that a line
-- declares is found with the data of the first line that declares it, and an address that no line
-- declares is not in the table.
pub get_func_with_original_addr-first_symbol :
    (fresh : FuncInfo) (lines : List Bytes) (a : ℕ)
    → Safe ⊥
        (λ m. lookup a m ≡ first_symbol fresh a lines)
        (get_func_with_original_addr fresh (some lines))
unfolding get_func_with_original_addr lookup
get_func_with_original_addr-first_symbol fresh lines a = lookup-nm_lines fresh a [] lines
