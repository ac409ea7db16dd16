-- ===== src/Functions.antt =====
-- src/infrastructure.cpp and src/utils.hpp: the tables of functions that the tracer keeps, read
-- from the output of nm and llvm-bolt, and the functions on the call stacks.
-- A line is what one fgets call returns; `fresh` is what a new func_info holds before it is
-- assigned, as its numbers and its flag have no initial value.
pub mod Tables
pub mod Symbols
pub mod Moves
pub mod Locate
pub mod Stack
pub mod Undefined
pub mod Plan
use ocolos_public.Prelude.{
  ◌-◌, ℕ, suc, ◌+◌, ◌*◌, ◌^◌, Bool, true, false, not, ◌&&◌, ◌||◌, List, [], ◌∷◌, ◌++◌, map, foldl,
  Option, none, some, ltb, ◌==◌, if◌then◌else◌, Bytes, codes, str_eq, lookup, has_key, assign,
  length, Outcome, done, exited, undefined, ◌>>=◌,
}
use ocolos_public.Utils.{split_line, convert_str_2_long}

pub record FuncInfo : Type 0 where
  pub in_call_stack : Bool
  pub original_addr : ℕ
  pub moved_addr : ℕ
  pub original_size : ℕ
  pub moved_size : ℕ
  pub func_name : Bytes
  pub orig_addr_str : Bytes
  pub moved_addr_str : Bytes

-- unordered_map<long, func_info>, in its order of iteration, and map<long, func_info>, by key.
abbrev pub Funcs : Type 0
Funcs = List (ℕ × FuncInfo)

-- get_func_with_original_addr: one line of `nm -S -n`; the first line of an address counts.
unfoldable pub nm_words : FuncInfo → Funcs → List Bytes → Funcs
nm_words fresh funcs (addr_str ∷ size_str ∷ kind ∷ name ∷ more) =
    let addr = convert_str_2_long addr_str in
    let new_func = record fresh {
      original_addr = addr;
      original_size = convert_str_2_long size_str;
      orig_addr_str = addr_str;
    } in
    if (str_eq kind (codes "T") || str_eq kind (codes "t")) && not (has_key addr funcs)
    then assign addr new_func funcs
    else funcs
nm_words fresh funcs _ = funcs

nm_lines : FuncInfo → Funcs → List Bytes → Funcs
nm_lines fresh funcs [] = funcs
nm_lines fresh funcs (line ∷ lines) = nm_lines fresh (nm_words fresh funcs (split_line line)) lines

-- `none`: popen gave NULL.
unfoldable pub get_func_with_original_addr : FuncInfo → Option (List Bytes) → Outcome Funcs
unfolding nm_lines nm_words
get_func_with_original_addr fresh none = exited
get_func_with_original_addr fresh (some lines) = done (nm_lines fresh [] lines)

-- run_llvmbolt: one line of its output. A marked line with fewer than six words is read past the
-- end of the vector.
unfoldable pub bolt_words : FuncInfo → Funcs → List Bytes → Outcome Funcs
bolt_words fresh funcs (mark ∷ name ∷ orig ∷ moved ∷ orig_size ∷ moved_size ∷ more) =
    let new_func = record fresh {
      func_name = name;
      orig_addr_str = orig;
      moved_addr_str = moved;
      original_addr = convert_str_2_long orig;
      moved_addr = convert_str_2_long moved;
      original_size = convert_str_2_long orig_size;
      moved_size = convert_str_2_long moved_size;
    } in
    if str_eq mark (codes "@@@@")
    then done (assign (convert_str_2_long orig) new_func funcs)
    else done funcs
bolt_words fresh funcs (mark ∷ name ∷ more) =
    if str_eq mark (codes "@@@@") then undefined else done funcs
bolt_words fresh funcs _ = done funcs

bolt_lines : FuncInfo → Funcs → List Bytes → Outcome Funcs
bolt_lines fresh funcs [] = done funcs
bolt_lines fresh funcs (line ∷ lines) = do
  funcs' ← bolt_words fresh funcs (split_line line)
  bolt_lines fresh funcs' lines

unfoldable pub run_llvmbolt : FuncInfo → Option (List Bytes) → Outcome Funcs
unfolding bolt_lines bolt_words
run_llvmbolt fresh none = exited
run_llvmbolt fresh (some lines) = done [] >>= λ funcs. bolt_lines fresh funcs lines

-- The loop of get_unmoved_func and of get_unmoved_func_not_in_call_stack: what is not in `taken`
-- is copied.
unfoldable pub copy_unless : Funcs → Funcs → Funcs → Funcs
copy_unless taken result [] = result
copy_unless taken result ((k, f) ∷ funcs) =
    copy_unless taken (if has_key k taken then result else assign k f result) funcs

unfoldable pub get_unmoved_func : Funcs → Funcs → Funcs
unfolding copy_unless
get_unmoved_func func_with_addr bolted_func = copy_unless bolted_func [] func_with_addr

unfoldable pub get_unmoved_func_not_in_call_stack : Funcs → Funcs → Funcs
unfolding copy_unless
get_unmoved_func_not_in_call_stack func_in_call_stack unmoved_func =
    copy_unless func_in_call_stack [] unmoved_func

-- The place of a long in their order. A long is held by its 64 bits as a number, so those from 2^63
-- on are the negative ones.
unfoldable pub long_rank : ℕ → ℕ
long_rank x = if ltb x (2 ^ 63) then x + 2 ^ 63 else if ltb x (2 ^ 64) then x - 2 ^ 63 else x

-- `m[k] = v` of the ordered map.
unfoldable pub heap_assign : ℕ → FuncInfo → Funcs → Funcs
unfolding long_rank
heap_assign k f [] = (k, f) ∷ []
heap_assign k f ((j, g) ∷ heap) =
    if k == j
    then (k, f) ∷ heap
    else if ltb (long_rank k) (long_rank j)
    then (k, f) ∷ (j, g) ∷ heap
    else (j, g) ∷ heap_assign k f heap

heap_of : Funcs → Funcs → Funcs
heap_of heap [] = heap
heap_of heap ((k, f) ∷ funcs) = heap_of (heap_assign k f heap) funcs

unfoldable pub change_func_to_heap : Funcs → Funcs
unfolding heap_of heap_assign
change_func_to_heap = heap_of []

-- What `lower_bound(ip)` and `prev` give: the end, the beginning (which has no `prev`), or an
-- entry with a predecessor.
pub data Place : Type 0 where
  at_end : Place
  at_begin : Place
  behind : ℕ → FuncInfo → Place

abbrev pub place_behind : Option (ℕ × FuncInfo) → Place
place_behind none = at_begin
place_behind (some (k, f)) = behind k f

-- `last` is the entry passed last. The pointer, an unsigned number, is converted to a long.
unfoldable pub locate : ℕ → Option (ℕ × FuncInfo) → Funcs → Place
unfolding long_rank
locate ip last [] = at_end
locate ip last ((k, f) ∷ heap) =
    let further = locate ip (some (k, f)) heap in
    if ltb (long_rank k) (long_rank ip) then further else place_behind last

-- The body of the loop in get_func_in_call_stack; `prev(begin())` is undefined.
unfoldable pub stack_ip : Funcs → Funcs → ℕ → Outcome Funcs
unfolding locate
stack_ip heap found ip = elim (locate ip none heap) [
  | at_end ↦ done found
  | at_begin ↦ undefined
  | behind k f ↦ done (assign k f found)
]

stack_ips : Funcs → Funcs → List ℕ → Outcome Funcs
stack_ips heap found [] = done found
stack_ips heap found (ip ∷ ips) = do found' ← stack_ip heap found ip; stack_ips heap found' ips

unfoldable pub get_func_in_call_stack : List ℕ → Funcs → Outcome Funcs
unfolding stack_ips stack_ip
get_func_in_call_stack call_stack_ips unmoved_func_heap =
    stack_ips unmoved_func_heap [] call_stack_ips

unfoldable pub get_keys_to_array : Funcs → List ℕ
get_keys_to_array [] = []
get_keys_to_array ((k, f) ∷ funcs) = k ∷ get_keys_to_array funcs

unfoldable pub get_moved_addr_to_array : Funcs → List ℕ
get_moved_addr_to_array [] = []
get_moved_addr_to_array ((k, f) ∷ funcs) = f.moved_addr ∷ get_moved_addr_to_array funcs
