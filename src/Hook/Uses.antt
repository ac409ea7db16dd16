-- ===== src/Hook/Uses.antt =====
-- The set of stores that the first loop collects, and the operand that the second loop finds.
use ocolos_public.Prelude.{
  ℕ, ◌≡◌, refl, ap, ◌∙◌, ==_iff, Bool, true, false, not, ◌&&◌, ◌||◌, List, [], ◌∷◌, none, some,
  ◌==◌, if◌then◌else◌, Bool-cases, inl, inr, contains, arith,
}
use ocolos_public.Ptrace.Threads.{Distinct}
use ocolos_public.Hook.{Ir, uses_function, collect_uses, function_operand}

module _ (ir : Ir) where
  open ir use {Body, is_function}

  one_use :
      (set is : List ℕ) (i j : ℕ) (u uj : Bool)
      → ((j == i) ≡ true → uj ≡ u)
      → (contains (if u && not (contains set i) then i ∷ set else set) j || (contains is j && uj))
        ≡ (contains set j || (contains (i ∷ is) j && uj))
  unfolding contains
  one_use set is i j true uj same =
      let at : (j == i) ≡ true → contains set j ≡ contains set i =
        λ e. ap (contains set) ((==_iff j i).0 e) in
      elim (Bool-cases (contains set i)) [
        | inl old ↦ rw old (ground (arith, at, same, old))
        | inr new ↦ rw new (ground (arith, at, same, new))
      ]
  one_use set is i j false uj same = ground (arith, same)

  collect_uses-cons :
      (w : Body) (i : ℕ) (is set : List ℕ)
      → collect_uses ir w (i ∷ is) set
        ≡ collect_uses ir w is
            (if uses_function ir w i && not (contains set i) then i ∷ set else set)
  unfolding collect_uses
  collect_uses-cons w i is set = refl

  pub contains-collect_uses :
      (w : Body) (is set : List ℕ) (j : ℕ)
      → contains (collect_uses ir w is set) j
        ≡ (contains set j || (contains is j && uses_function ir w j))
  contains-collect_uses w [] set j = unfold collect_uses contains in ground arith
  contains-collect_uses w (i ∷ is) set j = rw (collect_uses-cons w i is set) (
      contains-collect_uses w is _ j
      ∙ one_use set is i j (uses_function ir w i) (uses_function ir w j)
          (λ e. ap (uses_function ir w) ((==_iff j i).0 e)))

  pub collect_uses-Distinct :
      (w : Body) (is set : List ℕ) → Distinct set → Distinct (collect_uses ir w is set)
  unfolding collect_uses
  collect_uses-Distinct w [] set d = d
  collect_uses-Distinct w (i ∷ is) set d =
      collect_uses-Distinct w is _ (go (uses_function ir w i) (contains set i) refl)
    where
      go : (u c : Bool) → contains set i ≡ c → Distinct (if u && not c then i ∷ set else set)
      go true true e = d
      go true false e = (e, d)
      go false c e = d

  -- Of a value that is a function and a pointer that is none the loop over the operands takes the
  -- value.
  pub function_operand-value :
      (v p : ℕ)
      → is_function v ≡ true
      → is_function p ≡ false
      → function_operand ir (v ∷ p ∷ []) none ≡ some v
  unfolding function_operand
  function_operand-value v p on off = rw (on, off) refl
