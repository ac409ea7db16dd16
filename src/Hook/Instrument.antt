-- ===== src/Hook/Instrument.antt =====
-- The second loop: each store that it meets gets the hook, and no other instruction changes.
use ocolos_public.Prelude.{
  ℕ, ◌≡◌, refl, sym, ap, ◌∙◌, subst, true, false, ◌||◌, List, [], ◌∷◌, none, some, ◌==◌, Bool-cases,
  inl, inr, map, contains, done, Safe, Safe-bind, Safe-map, All, arith, ==_refl, ==_iff, ◌⊎◌,
}
use ocolos_public.Ptrace.Threads.{Distinct}
use ocolos_public.Hook.{Ir, IsIr, Keeps, replaced, function_operand, instrument, instrument_all}
use ocolos_public.Hook.Uses.{function_operand-value}

contains-one : (i j : ℕ) → contains (i ∷ []) j ≡ false → (j == i) ≡ false
unfolding contains
contains-one i j out = ground arith

contains-cons : (i : ℕ) (is : List ℕ) (j : ℕ) → contains (i ∷ is) j ≡ (j == i || contains is j)
unfolding contains
contains-cons i is j = refl

contains-nil : (j : ℕ) → contains [] j ≡ false
unfolding contains
contains-nil j = refl

module _ (ir : Ir) (laws : IsIr ir) where
  open ir use {
    Body, insts, operands, is_store, value_operand, pointer_operand, is_function, IsCast, IsCall,
  }

  Keeps-trans : {u v w : Body} → Keeps ir u v → Keeps ir v w → Keeps ir u w
  Keeps-trans a b = record {
    insts_kept = λ i h. b.insts_kept i (a.insts_kept i h);
    operands_kept = λ i h. b.operands_kept i (a.insts_kept i h) ∙ a.operands_kept i h;
    casts_kept = λ x v h. b.casts_kept x v (a.casts_kept x v h);
    calls_kept = λ x f v h. b.calls_kept x f v (a.calls_kept x f v h);
  }

  -- `r` is what the hook gives for `v`: the cast of its result for the cast of `v`.
  pub record IsHooked (w : Body) (hook v r : ℕ) : Type 0 where
    pub int_ptr : ℕ
    pub result : ℕ
    pub int_ptr_is : IsCast w int_ptr v
    pub result_is : IsCall w result hook int_ptr
    pub cast_back : IsCast w r result

  -- The same as Keeps, but for the operands of some instructions.
  pub record KeepsOthers (uses : List ℕ) (w w' : Body) : Type 0 where
    pub others_here : (j : ℕ) → contains (insts w) j ≡ true → contains (insts w') j ≡ true
    pub others :
        (j : ℕ)
        → contains (insts w) j ≡ true
        → contains uses j ≡ false
        → operands w' j ≡ operands w j
    pub other_casts : (a v : ℕ) → IsCast w a v → IsCast w' a v
    pub other_calls : (a f v : ℕ) → IsCall w a f v → IsCall w' a f v

  pub IsHooked-kept :
      {uses : List ℕ} {w w' : Body} {hook v r : ℕ}
      → KeepsOthers uses w w'
      → IsHooked w hook v r
      → IsHooked w' hook v r
  IsHooked-kept k h = record {
    int_ptr = h.int_ptr;
    result = h.result;
    int_ptr_is = k.other_casts h.int_ptr _ h.int_ptr_is;
    result_is = k.other_calls h.result _ h.int_ptr h.result_is;
    cast_back = k.other_casts _ h.result h.cast_back;
  }

  -- A store of a function, not to a function.
  pub record IsUse (w : Body) (i v p : ℕ) : Type 0 where
    pub here : contains (insts w) i ≡ true
    pub store : is_store i ≡ true
    pub operands_are : operands w i ≡ v ∷ p ∷ []
    pub value_function : is_function v ≡ true
    pub pointer_none : is_function p ≡ false

  IsUse-kept :
      {uses : List ℕ} {w w' : Body} {i v p : ℕ}
      → KeepsOthers uses w w'
      → contains uses i ≡ false
      → IsUse w i v p
      → IsUse w' i v p
  IsUse-kept {uses} {w} {w'} {i} k out u = record {
    here = k.others_here i u.here;
    store = u.store;
    operands_are = k.others i u.here out ∙ u.operands_are;
    value_function = u.value_function;
    pointer_none = u.pointer_none;
  }

  -- The store writes what the hook gives for the function.
  abbrev pub Hooks : ℕ → ℕ → ℕ → ℕ → Body → Type 0
  Hooks hook i v p w = (r : ℕ) × (operands w i ≡ r ∷ p ∷ []) × IsHooked w hook v r

  replace_value :
      (v p r : ℕ)
      → is_function v ≡ true
      → is_function p ≡ false
      → map (replaced v r) (v ∷ p ∷ []) ≡ r ∷ p ∷ []
  replace_value v p r on off = rw (==_refl v, differ (Bool-cases (p == v)))
    where
      differ : ((p == v) ≡ true) ⊎ ((p == v) ≡ false) → (p == v) ≡ false
      differ (inl same) = absurd (clash (sym on ∙ ap is_function (sym ((==_iff p v).0 same)) ∙ off))
        where
          clash : true ≡ false → ⊥
          clash e = cc
      differ (inr other) = other

  -- The body with the three new values, and the last of them.
  abbrev with_hook : ℕ → Body → ℕ → ℕ → Body × ℕ
  with_hook hook w i v =
      let (w₁, int_ptr) = ir.pointer_cast w i v ir.int64_ptr in
      let (w₂, result) = ir.call w₁ i hook (int_ptr ∷ []) in
      ir.pointer_cast w₂ i result (ir.type_of v)

  with_hook-Keeps : (hook : ℕ) (w : Body) (i v : ℕ) → Keeps ir w (with_hook hook w i v).0
  with_hook-Keeps hook w i v =
      Keeps-trans (laws.cast_keeps w i v ir.int64_ptr)
        (Keeps-trans (laws.call_keeps _ i hook _) (laws.cast_keeps _ i _ (ir.type_of v)))

  with_hook-IsHooked :
      (hook : ℕ) (w : Body) (i v : ℕ)
      → IsHooked (with_hook hook w i v).0 hook v (with_hook hook w i v).1
  with_hook-IsHooked hook w i v =
      let (w₁, int_ptr) = ir.pointer_cast w i v ir.int64_ptr in
      let call_step = laws.call_keeps w₁ i hook (int_ptr ∷ []) in
      let (w₂, result) = ir.call w₁ i hook (int_ptr ∷ []) in
      let cast_step = laws.cast_keeps w₂ i result (ir.type_of v) in
      record {
        int_ptr = int_ptr;
        result = result;
        int_ptr_is =
            cast_step.casts_kept int_ptr v
              (call_step.casts_kept int_ptr v (laws.cast_is w i v ir.int64_ptr));
        result_is = cast_step.calls_kept result hook int_ptr (laws.call_is w₁ i hook int_ptr);
        cast_back = laws.cast_is w₂ i result (ir.type_of v);
      }

  instrument-found :
      (hook : ℕ) (w : Body) (i v : ℕ)
      → function_operand ir (operands w i) none ≡ some v
      → instrument ir hook w i
        ≡ done (ir.replace_uses (with_hook hook w i v).0 i v (with_hook hook w i v).1)
  unfolding instrument
  instrument-found hook w i v e = rw (e, instrument) refl

  instrument-Hooks :
      (hook : ℕ) (w : Body) (i v p : ℕ)
      → IsUse w i v p
      → Safe ⊥ (λ w'. Hooks hook i v p w' × KeepsOthers (i ∷ []) w w') (instrument ir hook w i)
  instrument-Hooks hook w i v p u =
      let found = function_operand-value ir v p u.value_function u.pointer_none in
      rw
        (instrument-found hook w i v
          (ap (λ vs. function_operand ir vs none) u.operands_are ∙ found))
        ((r, store_is, hooked), kept)
    where
      r : ℕ
      r = (with_hook hook w i v).1

      w₃ : Body
      w₃ = (with_hook hook w i v).0

      step : Keeps ir w w₃
      step = with_hook-Keeps hook w i v

      made : IsHooked w₃ hook v r
      made = with_hook-IsHooked hook w i v

      store_is : operands (ir.replace_uses w₃ i v r) i ≡ r ∷ p ∷ []
      store_is =
          laws.replace_operands w₃ i v r i
          ∙ rw (==_refl i, step.operands_kept i u.here, u.operands_are)
              (replace_value v p r u.value_function u.pointer_none)

      hooked : IsHooked (ir.replace_uses w₃ i v r) hook v r
      hooked = record {
        int_ptr = made.int_ptr;
        result = made.result;
        int_ptr_is = laws.replace_casts w₃ i v r made.int_ptr v u.store made.int_ptr_is;
        result_is =
            laws.replace_calls w₃ i v r made.result hook made.int_ptr u.store made.result_is;
        cast_back = laws.replace_casts w₃ i v r r made.result u.store made.cast_back;
      }

      kept : KeepsOthers (i ∷ []) w (ir.replace_uses w₃ i v r)
      kept = record {
        others_here = λ j h. rw (laws.replace_insts w₃ i v r) (step.insts_kept j h);
        others = λ j h out.
            laws.replace_operands w₃ i v r j ∙ rw (contains-one i j out) (step.operands_kept j h);
        other_casts = λ a x h. laws.replace_casts w₃ i v r a x u.store (step.casts_kept a x h);
        other_calls =
            λ a f x h. laws.replace_calls w₃ i v r a f x u.store (step.calls_kept a f x h);
      }

  KeepsOthers-trans :
      (i : ℕ) (is : List ℕ) (u v w : Body)
      → KeepsOthers (i ∷ []) u v
      → KeepsOthers is v w
      → KeepsOthers (i ∷ is) u w
  KeepsOthers-trans i is u v w a b = record {
    others_here = λ j h. b.others_here j (a.others_here j h);
    others = λ j h out. b.others j (a.others_here j h) (later j out) ∙ a.others j h (first j out);
    other_casts = λ x y h. b.other_casts x y (a.other_casts x y h);
    other_calls = λ x f y h. b.other_calls x f y (a.other_calls x f y h);
  }
    where
      later : (j : ℕ) → contains (i ∷ is) j ≡ false → contains is j ≡ false
      later j out = ground (arith, contains-cons i is j)

      first : (j : ℕ) → contains (i ∷ is) j ≡ false → contains (i ∷ []) j ≡ false
      first j out = ground (arith, contains-cons i is j, contains-cons i [] j, contains-nil j)

  KeepsOthers-refl : (w : Body) → KeepsOthers [] w w
  KeepsOthers-refl w = record {
    others_here = λ j h. h;
    others = λ j h out. refl;
    other_casts = λ a v h. h;
    other_calls = λ a f v h. h;
  }

  -- Every instruction of the list stores a function, and is not a store to a function.
  module _ (v p : ℕ → ℕ) (hook : ℕ) where
    AllUses-kept :
        (i : ℕ) (is : List ℕ) (w w' : Body)
        → KeepsOthers (i ∷ []) w w'
        → contains is i ≡ false
        → All (λ j. IsUse w j (v j) (p j)) is
        → All (λ j. IsUse w' j (v j) (p j)) is
    AllUses-kept i [] w w' k out us = tt
    AllUses-kept i (j ∷ is) w w' k out (u, us) =
        (IsUse-kept k (apart i j is out) u, AllUses-kept i is w w' k (rest i j is out) us)
      where
        apart : (i j : ℕ) (is : List ℕ) → contains (j ∷ is) i ≡ false → contains (i ∷ []) j ≡ false
        apart i j is out =
            ground (arith, contains-cons i [] j, contains-nil j, contains-cons j is i)

        rest : (i j : ℕ) (is : List ℕ) → contains (j ∷ is) i ≡ false → contains is i ≡ false
        rest i j is out = ground (arith, contains-cons j is i)

    abbrev pub AllHook : List ℕ → Body → Body → Type 0
    AllHook is w w' =
        ((i : ℕ) → contains is i ≡ true → Hooks hook i (v i) (p i) w') × KeepsOthers is w w'

    AllHook-cons :
        (i : ℕ) (is : List ℕ) (w w₁ w₂ : Body)
        → IsUse w i (v i) (p i)
        → contains is i ≡ false
        → Hooks hook i (v i) (p i) w₁
        → KeepsOthers (i ∷ []) w w₁
        → AllHook is w₁ w₂
        → AllHook (i ∷ is) w w₂
    AllHook-cons i is w w₁ w₂ u out (r, e, hooked) k (rest, k') =
        ((λ j h. one j h (Bool-cases (j == i))), KeepsOthers-trans i is w w₁ w₂ k k')
      where
        here : Hooks hook i (v i) (p i) w₂
        here = (r, k'.others i (k.others_here i u.here) out ∙ e, IsHooked-kept k' hooked)

        one :
            (j : ℕ)
            → contains (i ∷ is) j ≡ true
            → ((j == i) ≡ true) ⊎ ((j == i) ≡ false)
            → Hooks hook j (v j) (p j) w₂
        one j h (inl same) =
            subst (λ x. Hooks hook x (v x) (p x) w₂) (sym ((==_iff j i).0 same)) here
        one j h (inr other) = rest j (ground (arith, contains-cons i is j))

    pub instrument_all-AllHook :
        (is : List ℕ) (w : Body)
        → Distinct is
        → All (λ i. IsUse w i (v i) (p i)) is
        → Safe ⊥ (AllHook is w) (instrument_all ir hook is w)
    unfolding instrument_all contains
    instrument_all-AllHook [] w d us = ((λ i h. cc), KeepsOthers-refl w)
    instrument_all-AllHook (i ∷ is) w (out, d) (u, us) =
        Safe-bind ⊥ _ (AllHook (i ∷ is) w) (instrument ir hook w i) (instrument_all ir hook is)
          (instrument-Hooks hook w i (v i) (p i) u)
          (λ w₁ (one, k).
            Safe-map ⊥ _ (AllHook (i ∷ is) w) (instrument_all ir hook is w₁)
              (instrument_all-AllHook is w₁ d (AllUses-kept i is w w₁ k out us))
              (λ w₂ rest. AllHook-cons i is w w₁ w₂ u out one k rest))
