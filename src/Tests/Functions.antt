-- ===== src/Tests/Functions.antt =====
-- src/infrastructure.cpp on two functions.
use ocolos_public.Prelude.{
  ℕ, ◌≡◌, ◌≤◌, ◌↔◌, refl, ap, false, List, [], ◌∷◌, some, Bytes, codes, lookup, has_key, Has, Safe,
  str_eq, All, arith, inl, inr, ◌<◌, IsMap, Outcome, undefined, arith,
}
use ocolos_public.Utils.{split_line}
use ocolos_public.Functions.{long_rank, FuncInfo, Funcs, run_llvmbolt, get_func_in_call_stack}
use ocolos_public.Functions.Moves.{last_move, IsComplete, run_llvmbolt-moves}
use ocolos_public.Functions.Plan.{IsSorted}
use ocolos_public.Functions.Locate.{Covers}
use ocolos_public.Functions.Undefined.{
  get_func_in_call_stack-found, get_func_in_call_stack_undefined,
}

-- A function without names, for the numbers.
abbrev pub func_at : ℕ → ℕ → FuncInfo
func_at original moved = record {
  in_call_stack = false;
  original_addr = original;
  moved_addr = moved;
  original_size = 16;
  moved_size = 16;
  func_name = [];
  orig_addr_str = [];
  moved_addr_str = [];
}

abbrev pub two_funcs : Funcs
two_funcs = (16, func_at 16 4096) ∷ (64, func_at 64 8192) ∷ []

two_funcs-IsMap : IsMap two_funcs
two_funcs-IsMap = unfold has_key in (refl, (refl, tt))

two_funcs-IsSorted : IsSorted two_funcs
unfolding long_rank
two_funcs-IsSorted = ground arith

abbrev pub nm_output : List Bytes
nm_output = codes "0010 0010 T f\n" ∷ codes "0010 0020 t g\n" ∷ []

abbrev pub bolt_output : List Bytes
bolt_output = codes "@@@@ f 10 1000 10 20\n" ∷ codes "BOLT-INFO: done\n" ∷ []

pub bolt_output-IsComplete : All (λ line. IsComplete (split_line line)) bolt_output
bolt_output-IsComplete = unfold split_line str_eq in (tt, (refl, tt))

run_llvmbolt-moves_example :
    Safe ⊥
      (λ m. lookup 16 m ≡ last_move (func_at 0 0) 16 bolt_output)
      (run_llvmbolt (func_at 0 0) (some bolt_output))
run_llvmbolt-moves_example = run_llvmbolt-moves (func_at 0 0) bolt_output 16 bolt_output-IsComplete

below :
    (ip : ℕ)
    → Has ip (20 ∷ [])
    → (k : ℕ) × (f : FuncInfo) × (lookup k two_funcs ≡ some f) × (long_rank k < long_rank ip)
unfolding lookup long_rank
below ip (inl e) = (16, func_at 16 4096, refl, ground (arith, ap long_rank e))
below ip (inr h) = absurd h

get_func_in_call_stack-found_example :
    Safe ⊥
      (λ found.
        (k : ℕ) (f : FuncInfo)
        → (lookup k found ≡ some f) ↔ ((ip : ℕ) × Has ip (20 ∷ []) × Covers two_funcs ip k f))
      (get_func_in_call_stack (20 ∷ []) two_funcs)
get_func_in_call_stack-found_example =
    get_func_in_call_stack-found two_funcs (20 ∷ []) two_funcs-IsSorted below

get_func_in_call_stack_undefined_example :
    (get_func_in_call_stack (20 ∷ 16 ∷ []) two_funcs ≡ undefined)
    ↔ ((ip : ℕ) × Has ip (20 ∷ 16 ∷ []) × (long_rank ip ≤ long_rank 16))
get_func_in_call_stack_undefined_example =
    get_func_in_call_stack_undefined 16 (func_at 16 4096) ((64, func_at 64 8192) ∷ [])
      (20 ∷ 16 ∷ [])

-- A pointer behind the start of the last function is counted for no function.
last_function : get_func_in_call_stack (70 ∷ []) two_funcs ≡ Outcome.done []
unfolding get_func_in_call_stack
last_function = refl
