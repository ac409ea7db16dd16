-- ===== src/Hook/Hooked.antt =====
-- What the pass leaves: each stored pointer to a function goes through the hook, and nothing else
-- changes.
use ocolos_public.Prelude.{ℕ, ◌≡◌, Bool, true, false, List, [], ◌∷◌, contains}
use ocolos_public.Ptrace.Threads.{Distinct}
use ocolos_public.Hook.{Ir, IsIr}
use ocolos_public.Hook.Instrument.{IsHooked}

-- A loop over a set meets every element once, in some order.
pub record IsVisit (visit : List ℕ → List ℕ) : Type 0 where
  pub visit_once : (is : List ℕ) → Distinct is → Distinct (visit is)
  pub visit_same : (is : List ℕ) (i : ℕ) → contains (visit is) i ≡ contains is i

module _ (ir : Ir) (laws : IsIr ir) (visit : List ℕ → List ℕ) (visits : IsVisit visit) where
  open ir use {
    Body, insts, operands, is_store, value_operand, pointer_operand, is_function, is_intrinsic,
    get_lib_func,
  }

  -- What has become of an instruction: a store of one of the program's own functions writes what the
  -- hook gives for the function, and any other is as it was.
  abbrev Becomes : Bool → ℕ → Body → Body → ℕ → Type 0
  Becomes true hook w w' i =
      (r : ℕ) × (operands w' i ≡ r ∷ pointer_operand w i ∷ [])
      × IsHooked ir laws w' hook (value_operand w i) r
  Becomes false hook w w' i = operands w' i ≡ operands w i

  -- A store of one of the program's own functions: it is neither an intrinsic nor of a library.
  abbrev pub StoresOwn : Body → ℕ → Type 0
  StoresOwn w i =
      (is_store i ≡ true)
      × (is_function (value_operand w i) ≡ true)
      × (is_intrinsic (value_operand w i) ≡ false)
      × (get_lib_func (value_operand w i) ≡ false)
