-- ===== src/CallSites.antt =====
-- src/extract_call_sites.cpp: the program that lists the call instructions of the target binary
-- from the output of objdump, in sixteen threads, and groups them by the function they call.
pub mod Decode
pub mod Chunks
pub mod Groups
use ocolos_public.Prelude.{
  ℕ, zero, suc, ◌+◌, ◌-◌, ◌*◌, ◌/◌, ◌%◌, ◌^◌, Bool, true, false, ◌&&◌, ◌||◌, List, [], ◌∷◌, ◌++◌,
  Option, none, some, ltb, ◌==◌, if◌then◌else◌, Bytes, codes, str_eq, length, take, drop, lookup,
  has_key, assign, Outcome, done, exited, undefined, ◌>>=◌,
}
use ocolos_public.Utils.{split_line, is_hex, convert_str_2_long, convert_str_2_uint8}

-- call_site_info of src/boost_serialization.hpp.
pub record CallSite : Type 0 where
  pub machine_code : Bytes
  pub addr : ℕ
  pub next_addr : ℕ
  pub belonged_func : ℕ
  pub target_func_addr : ℕ

abbrev pub Sites : Type 0
Sites = List (ℕ × CallSite)

abbrev pub SitesList : Type 0
SitesList = List (ℕ × List ℕ)

-- `words[8].substr(size - 5, size - 1) == "@plt>"`; a shorter word makes substr throw, and nothing
-- catches that.
unfoldable pub is_library_call : Bytes → Outcome Bool
is_library_call name =
    if ltb (length name) 5
    then undefined
    else done (str_eq (take (length name - 1) (drop (length name - 5) name)) (codes "@plt>"))

-- `convert_str_2_long(word.substr(0, word.size() - 1))`: the address before the colon.
unfoldable pub label_addr : Bytes → ℕ
label_addr word = convert_str_2_long (take (length word - 1) word)

-- The words of two hexadecimal digits, wherever they stand in the line.
unfoldable pub byte_words : List Bytes → List Bytes
byte_words [] = []
byte_words (w ∷ ws) = if length w == 2 && is_hex w then w ∷ byte_words ws else byte_words ws

unfoldable pub uint8s : List Bytes → Bytes
uint8s [] = []
uint8s (w ∷ ws) = elim (convert_str_2_uint8 w) [ none ↦ uint8s ws | some b ↦ b ∷ uint8s ws ]

-- The loop from `size() - 1` down to 1 puts each string behind those before it.
unfoldable pub offset_text : List Bytes → Bytes
offset_text [] = []
offset_text (w ∷ ws) = offset_text ws ++ w

-- The body of the loop for a call instruction, once the next line has words. `fresh` is what a new
-- call_site_info holds. With no byte word at all, `size() - 1` wraps and the loop reads outside.
unfoldable pub call_info : CallSite → ℕ → Bytes → Bytes → List Bytes → Outcome CallSite
call_info fresh func label next_label [] = undefined
call_info fresh func label next_label (opcode ∷ offset) =
    let next_addr = label_addr next_label in
    let bytes = uint8s (opcode ∷ offset) in
    if ltb 5 (length (opcode ∷ offset))
    then exited
    else done (record {
      machine_code = bytes ++ drop (length bytes) fresh.machine_code;
      addr = label_addr label;
      next_addr = next_addr;
      belonged_func = func;
      target_func_addr = (convert_str_2_long (offset_text offset) + next_addr) % 2 ^ 32;
    })

-- The rest of the body: library calls and calls with no next instruction are skipped.
unfoldable pub call_words :
    CallSite → ℕ → Sites → Bytes → Bytes → List Bytes → List Bytes → Outcome Sites
unfolding is_library_call call_info byte_words uint8s offset_text label_addr
call_words fresh func sites label name words [] = is_library_call name >>= λ library. done sites
call_words fresh func sites label name words (next_label ∷ next_words) =
    is_library_call name >>= λ library.
    if library
    then done sites
    else call_info fresh func label next_label (byte_words words) >>= λ info.
        done (assign info.addr info sites)

-- One line and the words of the next one: more than eight words, the seventh `call` or `callq`.
unfoldable pub line_words : CallSite → ℕ → Sites → List Bytes → List Bytes → Outcome Sites
unfolding call_words
line_words fresh func sites (a ∷ b ∷ c ∷ d ∷ e ∷ f ∷ mnemonic ∷ operand ∷ name ∷ more) next =
    if str_eq mnemonic (codes "call") || str_eq mnemonic (codes "callq")
    then call_words fresh func sites a name
        (a ∷ b ∷ c ∷ d ∷ e ∷ f ∷ mnemonic ∷ operand ∷ name ∷ more) next
    else done sites
line_words fresh func sites _ next = done sites

scan_lines : CallSite → ℕ → Sites → List Bytes → Outcome Sites
scan_lines fresh func sites [] = done sites
scan_lines fresh func sites (line ∷ []) = done sites
scan_lines fresh func sites (line ∷ next ∷ lines) = do
  sites' ← line_words fresh func sites (split_line line) (split_line next)
  scan_lines fresh func sites' (next ∷ lines)

-- The lines of one function. With no line at all `size() - 1` wraps, and the loop reads outside.
unfoldable pub scan_function : CallSite → ℕ → Sites → List Bytes → Outcome Sites
unfolding scan_lines line_words
scan_function fresh func sites [] = undefined
scan_function fresh func sites (line ∷ lines) = scan_lines fresh func sites (line ∷ lines)

-- `objdump` gives the lines for a start and a stop address.
unfoldable pub thread_function :
    (ℕ → ℕ → List Bytes) → CallSite → List (ℕ × ℕ) → Sites → Outcome Sites
unfolding scan_function
thread_function objdump fresh [] sites = done sites
thread_function objdump fresh ((start, size) ∷ funcs) sites = do
  sites' ← scan_function fresh start sites (objdump start (start + size))
  thread_function objdump fresh funcs sites'

-- main: a line of nm declares a function of kind T, t, W or w, with its start and its size.
unfoldable pub symbol_range : List Bytes → Option (ℕ × ℕ)
symbol_range (addr ∷ size ∷ kind ∷ name ∷ more) =
    if str_eq kind (codes "T")
      || str_eq kind (codes "t")
      || str_eq kind (codes "W")
      || str_eq kind (codes "w")
    then some (convert_str_2_long addr, convert_str_2_long size)
    else none
symbol_range _ = none

unfoldable pub symbol_ranges : List Bytes → List (ℕ × ℕ)
unfolding symbol_range
symbol_ranges [] = []
symbol_ranges (line ∷ lines) = elim (symbol_range (split_line line)) [
  | none ↦ symbol_ranges lines
  | some range ↦ range ∷ symbol_ranges lines
]

module _ {ℓ} {A : Type ℓ} where
  -- The vectors for the threads, on the threads left after the first `i`: `size` elements for each
  -- but the last, which gets the rest.
  unfoldable pub chunks_from : ℕ → ℕ → ℕ → List A → List (List A)
  chunks_from zero i size funcs = drop (i * size) funcs ∷ []
  chunks_from (suc left) i size funcs =
      take ((i + 1) * size - i * size) (drop (i * size) funcs) ∷ chunks_from left (i + 1) size funcs

  unfoldable pub thread_chunks : List A → List (List A)
  unfolding chunks_from
  thread_chunks funcs = chunks_from 15 0 (length funcs / 16) funcs

-- `call_sites.insert(first, last)`: a key that is there already keeps its value.
unfoldable pub insert_sites : Sites → Sites → Sites
insert_sites sites [] = sites
insert_sites sites ((k, site) ∷ more) =
    insert_sites (if has_key k sites then sites else assign k site sites) more

-- One entry of the loop that groups the call sites by their target.
unfoldable pub group_site : SitesList → ℕ → CallSite → SitesList
group_site groups k site = elim (lookup site.target_func_addr groups) [
  | none ↦ assign site.target_func_addr (k ∷ []) groups
  | some addrs ↦ assign site.target_func_addr (addrs ++ (k ∷ [])) groups
]

unfoldable pub group_sites : SitesList → Sites → SitesList
unfolding group_site
group_sites groups [] = groups
group_sites groups ((k, site) ∷ sites) = group_sites (group_site groups k site) sites

-- main after the threads: the maps are merged in their order, and then grouped.
unfoldable pub merge_sites : Sites → List Sites → Sites
unfolding insert_sites
merge_sites sites [] = sites
merge_sites sites (part ∷ parts) = merge_sites (insert_sites sites part) parts

run_threads : (ℕ → ℕ → List Bytes) → CallSite → List (List (ℕ × ℕ)) → Outcome (List Sites)
run_threads objdump fresh [] = done []
run_threads objdump fresh (funcs ∷ chunks) = do
  part ← thread_function objdump fresh funcs []
  parts ← run_threads objdump fresh chunks
  done (part ∷ parts)

-- What main stores in the two archives. `none`: popen gave NULL.
unfoldable pub extract_main :
    (ℕ → ℕ → List Bytes) → CallSite → Option (List Bytes) → Outcome (Sites × SitesList)
unfolding thread_function symbol_ranges thread_chunks run_threads merge_sites group_sites
extract_main objdump fresh none = exited
extract_main objdump fresh (some nm_lines) = do
  parts ← run_threads objdump fresh (thread_chunks (symbol_ranges nm_lines))
  let call_sites = merge_sites [] parts
  done (call_sites, group_sites [] call_sites)
