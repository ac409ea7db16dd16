-- ===== src/Elf.antt =====
-- elf-extract/src/lib.rs: the functions and the v-tables of a BOLTed binary, cut out of its file and
-- written as records. What the object crate reads from the file is a parameter, and so is the order
-- of its symbols. A panic ends the process, and is taken as an exit; sums keep their 64 bits.
pub mod Cut
pub mod Functions
pub mod Tables
pub mod Moved
use ocolos_public.Prelude.{
  ℕ, ◌+◌, ◌-◌, ◌%◌, ◌^◌, ◌&&◌, ◌||◌, not, Bool, true, false, List, [], ◌∷◌, ◌++◌, Option, none,
  some, leb, ltb, if◌then◌else◌, Bytes, codes, str_eq, length, take, drop, get_elem?, contains,
  lookup, assign, Outcome, done, exited, ◌>>=◌,
}
use ocolos_public.Records.{put_long}

-- What the crate says of a symbol. A name that is no text is `none`, and so is the section of a
-- symbol that stands in none.
pub record Symbol : Type 0 where
  pub name : Option Bytes
  pub address : ℕ
  pub size : ℕ
  pub is_text : Bool
  pub is_undefined : Bool
  pub section : Option ℕ

-- The four data structures that init makes but for the map of symbols. A section is the pair of its
-- address and its offset in the file.
pub record Binary : Type 0 where
  pub sections : List (ℕ × ℕ)
  pub symbols : List Symbol
  pub dynamic_symbols : List Symbol
  pub file_bytes : Bytes

abbrev pub all_symbols : Binary → List Symbol
all_symbols b = b.symbols ++ b.dynamic_symbols

-- `m.insert(s.address(), s)` for the symbols of functions.
unfoldable pub insert_symbols : List (ℕ × Symbol) → List Symbol → List (ℕ × Symbol)
insert_symbols m [] = m
insert_symbols m (s ∷ symbols) =
    insert_symbols (if s.is_text then assign s.address s m else m) symbols

-- ELF_SYMBOLS, as init sets it.
unfoldable pub elf_symbols : Binary → List (ℕ × Symbol)
unfolding insert_symbols
elf_symbols b = insert_symbols [] (all_symbols b)

-- `&bytes[first..last]`.
unfoldable pub slice : Bytes → ℕ → ℕ → Outcome Bytes
slice bytes first last =
    if leb first last && leb last (length bytes)
    then done (take (last - first) (drop first bytes))
    else exited

-- `ELF_SECTIONS[section_idx]`, with the section's index of a symbol.
unfoldable pub section_of : Binary → Symbol → Outcome (ℕ × ℕ)
section_of b s = elim s.section [
  | none ↦ exited
  | some section_idx ↦ elim (get_elem? b.sections section_idx) [
    | none ↦ exited
    | some section ↦ done section
  ]
]

-- The bytes of a symbol in the file, from its place in its section.
unfoldable pub file_slice : Binary → Symbol → ℕ → ℕ → Outcome Bytes
unfolding slice
file_slice b s base_file_offset sym_offset =
    let file_offset_start = (base_file_offset + sym_offset) % 2 ^ 64 in
    slice b.file_bytes file_offset_start ((file_offset_start + s.size) % 2 ^ 64)

-- The bytes of a function; checked_sub panics below the section.
unfoldable pub function_bytes : Binary → Symbol → Outcome Bytes
unfolding section_of file_slice
function_bytes b s = section_of b s >>= λ (base_section_addr, base_file_offset).
    (if ltb s.address base_section_addr
      then exited
      else file_slice b s base_file_offset (s.address - base_section_addr))

abbrev put_record : ℕ → Bytes → Bytes
put_record address bytes = put_long address ++ (put_long (length bytes) ++ bytes)

-- `for a in addrs`.
unfoldable pub write_addrs : Binary → List (ℕ × Symbol) → List ℕ → Outcome Bytes
unfolding function_bytes put_long
write_addrs b symbols [] = done []
write_addrs b symbols (a ∷ addrs) =
    let rest = write_addrs b symbols addrs in
    elim (lookup a symbols) [
      | none ↦ rest
      | some sym ↦ do bytes ← function_bytes b sym; more ← rest; done (put_record a bytes ++ more)
    ]

unfoldable pub write_functions : Binary → List ℕ → Outcome Bytes
unfolding write_addrs elf_symbols
write_functions b addrs = write_addrs b (elf_symbols b) addrs

pub record Vtable : Type 0 where
  pub addr : ℕ
  pub contents : Bytes

-- `sym_name.starts_with("_ZTV")`, or "_ZTC"; a name that cannot be read is none.
unfoldable pub is_vtable_name : Option Bytes → Bool
is_vtable_name none = false
is_vtable_name (some sym_name) =
    str_eq (take 4 sym_name) (codes "_ZTV") || str_eq (take 4 sym_name) (codes "_ZTC")

-- The offset in the section is a difference that wraps round.
unfoldable pub extract_vtable : Binary → Symbol → Outcome (Option Vtable)
unfolding is_vtable_name section_of file_slice
extract_vtable b s =
    if not (is_vtable_name s.name) || s.is_undefined
    then done none
    else (section_of b s >>= λ (base_section_addr, base_file_offset).
        file_slice b s base_file_offset ((s.address + (2 ^ 64 - base_section_addr)) % 2 ^ 64)
        >>= λ bytes. done (some (record { addr = s.address; contents = bytes })))

-- The loop of get_vtables: `vtab_addrs` holds the addresses of the tables before.
unfoldable pub collect_vtables : Binary → List ℕ → List Symbol → Outcome (List Vtable)
unfolding extract_vtable
collect_vtables b vtab_addrs [] = done []
collect_vtables b vtab_addrs (s ∷ symbols) = extract_vtable b s >>= λ found. elim found [
  | none ↦ collect_vtables b vtab_addrs symbols
  | some vt ↦
      let next =
        (collect_vtables b (vt.addr ∷ vtab_addrs) symbols >>= λ vtabs. done (vt ∷ vtabs)) in
      let same = collect_vtables b vtab_addrs symbols in
      if contains vtab_addrs vt.addr then same else next
]

unfoldable pub get_vtables : Binary → Outcome (List Vtable)
unfolding collect_vtables
get_vtables b = collect_vtables b [] (all_symbols b)

unfoldable pub put_vtables : List Vtable → Bytes
unfolding put_long
put_vtables [] = []
put_vtables (vt ∷ vtabs) = put_record vt.addr vt.contents ++ put_vtables vtabs

unfoldable pub write_vtable : Binary → Outcome Bytes
unfolding get_vtables put_vtables
write_vtable b = get_vtables b >>= λ vtabs. done (put_vtables vtabs)
