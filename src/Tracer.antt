-- ===== src/Tracer.antt =====
-- src/tracer.cpp: what main computes between the end of llvm-bolt and the insertion of code, with
-- the parts of src/infrastructure.cpp and src/ptrace_pause.cpp that it uses for that.
pub mod Arrays
pub mod Targets
use ocolos_public.Prelude.{
  ℕ, ◌&&◌, ◌||◌, Bool, true, false, List, [], ◌∷◌, ◌++◌, Option, none, some, if◌then◌else◌, Bytes,
  codes, str_eq, length, Outcome, done, exited, undefined, ◌>>=◌,
}
use ocolos_public.Utils.{split_line}
use ocolos_public.Records.{put_long}
use ocolos_public.Config.{Configs, find_config, assign_config}
use ocolos_public.Functions.{
  FuncInfo, Funcs, run_llvmbolt, get_func_with_original_addr, get_unmoved_func, change_func_to_heap,
  get_func_in_call_stack, get_unmoved_func_not_in_call_stack, get_keys_to_array,
  get_moved_addr_to_array,
}
use ocolos_public.CallSites.{CallSite, Sites, SitesList}
use ocolos_public.Patch.{extract_call_sites}

-- The words of a line of `nm -n -C` that names a v-table.
unfoldable pub is_v_table : List Bytes → Bool
is_v_table (addr ∷ kind ∷ third ∷ fourth ∷ more) =
    str_eq third (codes "vtable") || is_construction more
  where
    is_construction : List Bytes → Bool
    is_construction [] = false
    is_construction (w ∷ ws) = str_eq third (codes "construction") && str_eq fourth (codes "vtable")
is_v_table _ = false

abbrev first_word : List Bytes → Bytes
first_word [] = []
first_word (w ∷ ws) = w

-- `v_table.insert(make_pair(words[0], next_line_words[0]))`: the first entry of a key stays. Behind
-- the last line, and for a line without words, the code reads outside the vector.
unfoldable pub insert_v_table_range : Configs → Bytes → List Bytes → Outcome Configs
unfolding find_config assign_config
insert_v_table_range v_table addr [] = undefined
insert_v_table_range v_table addr (next_line ∷ lines) = elim (split_line next_line) [
  | [] ↦ undefined
  | next_addr ∷ more ↦ elim (find_config addr v_table) [
    | none ↦ done (assign_config addr next_addr v_table)
    | some old ↦ done v_table
  ]
]

unfoldable pub v_table_lines : Configs → List Bytes → Outcome Configs
unfolding insert_v_table_range is_v_table
v_table_lines v_table [] = done v_table
v_table_lines v_table (line ∷ lines) =
    let words = split_line line in
    let inserted = insert_v_table_range v_table (first_word words) lines in
    (if is_v_table words then inserted else done v_table) >>= λ v_table'.
    v_table_lines v_table' lines

-- `none`: popen gave NULL.
unfoldable pub get_v_table : Option (List Bytes) → Outcome Configs
unfolding v_table_lines
get_v_table none = exited
get_v_table (some lines) = v_table_lines [] lines

-- The instruction pointers of all threads: for each the first, and those behind each unw_step that
-- returns a positive number. `none`: unw_init_remote failed.
unfoldable pub unwind_call_stack : (ℕ → Option (ℕ × List ℕ)) → List ℕ → Outcome (List ℕ)
unwind_call_stack frames [] = done []
unwind_call_stack frames (tid ∷ tids) = elim (frames tid) [
  | none ↦ exited
  | some (ip, ips) ↦ unwind_call_stack frames tids >>= λ rest. done (ip ∷ ips ++ rest)
]

unfoldable pub put_longs : List ℕ → Bytes
put_longs [] = []
put_longs (n ∷ ns) = put_long n ++ put_longs ns

-- The file callstack_func.bin: the number of functions, and their addresses.
unfoldable pub write_func_on_call_stack_into_file : Funcs → Bytes
unfolding put_longs
write_func_on_call_stack_into_file func_in_call_stack =
    put_long (length func_in_call_stack) ++ put_longs (get_keys_to_array func_in_call_stack)

-- What main hands on to the code insertion: the addresses for write_functions, the new call
-- instructions, and the file for the next round.
pub record Plan : Type 0 where
  pub addr_bolted_func : List ℕ
  pub addr_unmoved_func_not_in_call_stack : List ℕ
  pub call_sites_bin : Bytes
  pub callstack_func : Bytes

-- The part of main from run_llvmbolt to the last write_functions. The lines are what the three
-- programs print.
unfoldable pub make_plan :
    FuncInfo
    → CallSite
    → Sites
    → SitesList
    → Option (List Bytes)
    → Option (List Bytes)
    → Option (List Bytes)
    → (ℕ → Option (ℕ × List ℕ))
    → List ℕ
    → Outcome Plan
unfolding get_v_table unwind_call_stack write_func_on_call_stack_into_file
make_plan fresh unset sites groups bolt_output nm_output v_table_output frames tids = do
  bolted_func ← run_llvmbolt fresh bolt_output
  func_with_addr ← get_func_with_original_addr fresh nm_output
  let unmoved_func = get_unmoved_func func_with_addr bolted_func
  let func_heap = change_func_to_heap func_with_addr
  v_table ← get_v_table v_table_output
  call_stack_ips ← unwind_call_stack frames tids
  func_in_call_stack ← get_func_in_call_stack call_stack_ips func_heap
  let replaced = get_unmoved_func_not_in_call_stack func_in_call_stack unmoved_func
  done (record {
    addr_bolted_func = get_moved_addr_to_array bolted_func;
    addr_unmoved_func_not_in_call_stack = get_keys_to_array replaced;
    call_sites_bin = extract_call_sites unset sites groups bolted_func func_in_call_stack;
    callstack_func = write_func_on_call_stack_into_file func_in_call_stack;
  })
