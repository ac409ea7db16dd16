-- ===== src/Hook.antt =====
-- hook-function-pointers-llvm/HookFunctionPointers.cpp: the pass that sends every function pointer
-- that a function stores through __ocolos_function_pointer_hook, so that the program keeps pointers
-- to the functions' original addresses.
pub mod Uses
pub mod Instrument
pub mod Hooked
use ocolos_public.Prelude.{
  ℕ, ◌≡◌, Bool, true, false, ◌&&◌, ◌||◌, not, List, [], ◌∷◌, Option, none, some, ◌==◌,
  if◌then◌else◌, map, contains, Outcome, done, undefined, ◌>>=◌,
}

-- LLVM's side. An instruction, a value and a type is the number of its object; `Body` is the function
-- with all that stands in it. `pointer_cast` and `call` are those of an IRBuilder in front of an
-- instruction, and give the new value. `IsCast` and `IsCall` say how a value was made.
pub record Ir : Type 1 where
  pub Body : Type 0
  pub insts : Body → List ℕ
  pub operands : Body → ℕ → List ℕ
  pub is_store : ℕ → Bool
  pub value_operand : Body → ℕ → ℕ
  pub pointer_operand : Body → ℕ → ℕ
  pub is_function : ℕ → Bool
  pub is_intrinsic : ℕ → Bool
  pub get_lib_func : ℕ → Bool
  pub type_of : ℕ → ℕ
  pub int64_ptr : ℕ
  pub get_or_insert_function : Body → Body × ℕ
  pub pointer_cast : Body → ℕ → ℕ → ℕ → Body × ℕ
  pub call : Body → ℕ → ℕ → List ℕ → Body × ℕ
  pub replace_uses : Body → ℕ → ℕ → ℕ → Body
  pub IsCast : Body → ℕ → ℕ → Type 0
  pub IsCall : Body → ℕ → ℕ → ℕ → Type 0

-- What stays in a body when code is put into it: the operands of the instructions that it had, and
-- how its values were made.
pub record Keeps (ir : Ir) (w w' : ir.Body) : Type 0 where
  pub insts_kept : (i : ℕ) → contains (ir.insts w) i ≡ true → contains (ir.insts w') i ≡ true
  pub operands_kept : (i : ℕ) → contains (ir.insts w) i ≡ true → ir.operands w' i ≡ ir.operands w i
  pub casts_kept : (a v : ℕ) → ir.IsCast w a v → ir.IsCast w' a v
  pub calls_kept : (a f v : ℕ) → ir.IsCall w a f v → ir.IsCall w' a f v

abbrev pub replaced : ℕ → ℕ → ℕ → ℕ
replaced old new v = if v == old then new else v

-- What LLVM documents: a store has its value and its pointer as operands; the builder adds
-- instructions, and leaves the others; replaceUsesOfWith changes every operand that is the old value
-- in the one instruction.
pub record IsIr (ir : Ir) : Type 0 where
  pub store_operands :
      (w : ir.Body) (i : ℕ)
      → contains (ir.insts w) i ≡ true
      → ir.is_store i ≡ true
      → ir.operands w i ≡ ir.value_operand w i ∷ ir.pointer_operand w i ∷ []
  pub function_keeps : (w : ir.Body) → Keeps ir w (ir.get_or_insert_function w).0
  pub cast_keeps : (w : ir.Body) (i v t : ℕ) → Keeps ir w (ir.pointer_cast w i v t).0
  pub cast_is :
      (w : ir.Body) (i v t : ℕ)
      → ir.IsCast (ir.pointer_cast w i v t).0 (ir.pointer_cast w i v t).1 v
  pub call_keeps : (w : ir.Body) (i f : ℕ) (args : List ℕ) → Keeps ir w (ir.call w i f args).0
  pub call_is :
      (w : ir.Body) (i f v : ℕ)
      → ir.IsCall (ir.call w i f (v ∷ [])).0 (ir.call w i f (v ∷ [])).1 f v
  pub replace_insts :
      (w : ir.Body) (i old new : ℕ) → ir.insts (ir.replace_uses w i old new) ≡ ir.insts w
  pub replace_operands :
      (w : ir.Body) (i old new j : ℕ)
      → ir.operands (ir.replace_uses w i old new) j
        ≡ (if j == i then map (replaced old new) (ir.operands w j) else ir.operands w j)
  pub replace_casts :
      (w : ir.Body) (i old new a v : ℕ)
      → ir.is_store i ≡ true
      → ir.IsCast w a v
      → ir.IsCast (ir.replace_uses w i old new) a v
  pub replace_calls :
      (w : ir.Body) (i old new a f v : ℕ)
      → ir.is_store i ≡ true
      → ir.IsCall w a f v
      → ir.IsCall (ir.replace_uses w i old new) a f v

module _ (ir : Ir) where
  open ir use {
    Body, insts, operands, is_store, value_operand, is_function, is_intrinsic, get_lib_func,
    type_of, int64_ptr, get_or_insert_function, pointer_cast, call, replace_uses,
  }

  -- The body of the first loop, for one instruction: whether it goes into the set.
  unfoldable pub uses_function : Body → ℕ → Bool
  uses_function w i =
      let val = value_operand w i in
      is_store i && (is_function val && not (is_intrinsic val || get_lib_func val))

  -- `for (inst_iterator I = inst_begin(F), E = inst_end(F); I != E; ++I)`; the set holds what it
  -- holds once.
  unfoldable pub collect_uses : Body → List ℕ → List ℕ → List ℕ
  unfolding uses_function
  collect_uses w [] func_ptr_uses = func_ptr_uses
  collect_uses w (i ∷ rest) func_ptr_uses = collect_uses w rest (
      if uses_function w i && not (contains func_ptr_uses i)
      then i ∷ func_ptr_uses
      else func_ptr_uses)

  -- `for (Use &U : fptrI->operands())`: the last operand that is a function.
  unfoldable pub function_operand : List ℕ → Option ℕ → Option ℕ
  function_operand [] fptr = fptr
  function_operand (v ∷ vs) fptr = function_operand vs (if is_function v then some v else fptr)

  -- The body of the second loop. Without a function the assert fails, or a null pointer is used.
  unfoldable pub instrument : ℕ → Body → ℕ → Outcome Body
  unfolding function_operand
  instrument hook w i = elim (function_operand (operands w i) none) [
    | none ↦ undefined
    | some fptr ↦
        let (w₁, int_ptr) = pointer_cast w i fptr int64_ptr in
        let (w₂, result) = call w₁ i hook (int_ptr ∷ []) in
        let (w₃, ret_fptr) = pointer_cast w₂ i result (type_of fptr) in
        done (replace_uses w₃ i fptr ret_fptr)
  ]

  unfoldable pub instrument_all : ℕ → List ℕ → Body → Outcome Body
  unfolding instrument
  instrument_all hook [] w = done w
  instrument_all hook (i ∷ uses) w = instrument hook w i >>= instrument_all hook uses

  -- The pass: with the body whether the analyses of it are still good. `visit` gives the order in
  -- which a loop meets the elements of the set of pointers.
  unfoldable pub run : (List ℕ → List ℕ) → Bool → Body → Outcome (Body × Bool)
  unfolding collect_uses instrument_all
  run visit false w = done (w, true)
  run visit true w =
      let func_ptr_uses = collect_uses w (insts w) [] in
      let (w', hook) = get_or_insert_function w in
      instrument_all hook (visit func_ptr_uses) w' >>= λ w''. done (w'', false)
