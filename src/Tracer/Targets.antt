-- ===== src/Tracer/Targets.antt =====
-- Which functions main hands on to the code insertion, by the output of the programs.
use ocolos_public.Prelude.{ℕ, ◌≡◌, ◌↔◌, List, Option, none, some, Bytes, lookup, Has, done}
use ocolos_public.Functions.{FuncInfo, Funcs, change_func_to_heap}
use ocolos_public.Functions.Tables.{IsTable}
use ocolos_public.Functions.Symbols.{first_symbol}
use ocolos_public.Functions.Moves.{last_move}
use ocolos_public.Functions.Locate.{Covers}
use ocolos_public.Tracer.{Plan, unwind_call_stack}

-- One of the pointers is counted for the function at the address.
abbrev pub CountsFor : Funcs → List ℕ → ℕ → FuncInfo → Type 0
CountsFor funcs ips k f = (ip : ℕ) × Has ip ips × Covers (change_func_to_heap funcs) ip k f

abbrev pub OnStack : Funcs → List ℕ → ℕ → Type 0
OnStack funcs ips k = (f : FuncInfo) × CountsFor funcs ips k f

-- What a plan holds, by the lines of nm and of llvm-bolt and the frames of the threads: the table of
-- the original functions and the pointers on the stacks, and the two arrays of addresses.
pub record IsPlan (fresh : FuncInfo) (bolt nm : List Bytes) (frames : ℕ → Option (ℕ × List ℕ))
    (tids : List ℕ) (plan : Plan) : Type 0 where
  pub funcs : Funcs
  pub ips : List ℕ
  pub is_table : (k : ℕ) → lookup k funcs ≡ first_symbol fresh k nm
  pub is_stack : unwind_call_stack frames tids ≡ done ips
  pub moved :
      (a : ℕ)
      → Has a plan.addr_bolted_func
        ↔ ((k : ℕ) × (f : FuncInfo) × (last_move fresh k bolt ≡ some f) × (a ≡ f.moved_addr))
  pub replaced :
      (k : ℕ)
      → Has k plan.addr_unmoved_func_not_in_call_stack ↔ (
          ((f : FuncInfo) × (first_symbol fresh k nm ≡ some f))
          × (last_move fresh k bolt ≡ none)
          × ¬ OnStack funcs ips k)

-- What main knows of a table that it has read.
abbrev Read : (ℕ → Option FuncInfo) → Funcs → Type 0
Read spec m = IsTable m × ((k : ℕ) → lookup k m ≡ spec k)
