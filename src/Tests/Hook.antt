-- ===== src/Tests/Hook.antt =====
-- The pass of hook-function-pointers-llvm/HookFunctionPointers.cpp on a function with two stores, in
-- a small intermediate language in which every instruction has two operands and casts vanish.
use ocolos_public.Prelude.{
  ℕ, ◌+◌, ◌≡◌, refl, true, false, ◌&&◌, List, [], ◌∷◌, ◌==◌, leb, ltb, if◌then◌else◌, contains,
  done,
}
use ocolos_public.Hook.{
  Ir, replaced, uses_function, collect_uses, function_operand, instrument, instrument_all, run,
}

-- The instructions, and their operands.
abbrev Code : Type 0
Code = List ℕ × (ℕ → ℕ × ℕ)

-- The value of a call is 1000 above its argument.
abbrev call_value : List ℕ → ℕ
call_value [] = 1000
call_value (v ∷ vs) = 1000 + v

-- The functions are 100 to 199, and that of a library is 150; the instructions below 10 are stores.
abbrev plain_ir : Ir
plain_ir = record {
  Body = Code;
  insts = λ w. w.0;
  operands = λ w i. (w.1 i).0 ∷ (w.1 i).1 ∷ [];
  is_store = λ i. ltb i 10;
  value_operand = λ w i. (w.1 i).0;
  pointer_operand = λ w i. (w.1 i).1;
  is_function = λ v. leb 100 v && ltb v 200;
  is_intrinsic = λ v. false;
  get_lib_func = λ v. v == 150;
  type_of = λ v. 0;
  int64_ptr = 1;
  get_or_insert_function = λ w. (w, 199);
  pointer_cast = λ w i v t. (w, v);
  call = λ w i f args. (w, call_value args);
  replace_uses = λ w i old new. (
    w.0,
    λ j. if j == i then (replaced old new (w.1 j).0, replaced old new (w.1 j).1) else w.1 j,
  );
  IsCast = λ w a v. a ≡ v;
  IsCall = λ w a f v. a ≡ 1000 + v;
}

abbrev as_listed : List ℕ → List ℕ
as_listed is = is

-- Instruction 1 stores the function 100, and the others that of the library, all to 5.
abbrev two_stores : Code
two_stores = (1 ∷ 2 ∷ [], λ i. (if i == 1 then 100 else 150, 5))

hooked_store :
    (w : Code) × (run plain_ir as_listed true two_stores ≡ done (w, false))
    × (w.1 1 ≡ (1100, 5))
    × (w.1 2 ≡ (150, 5))
unfolding run collect_uses uses_function contains instrument_all instrument function_operand
hooked_store = (_, refl, refl, refl)
