-- ===== src/Functions/Undefined.antt =====
-- get_func_in_call_stack where a pointer lies at or before the first function.
use ocolos_public.Prelude.{
  ℕ, All, ◌<◌, ◌≤◌, List, [], ◌∷◌, ◌≡◌, refl, ap, ◌⊎◌, inl, inr, ◌↔◌, none, some, lookup, assign,
  arith, Has, done, exited, undefined, Outcome, Safe, Holds-Safe,
}
use ocolos_public.Functions.{
  FuncInfo, Funcs, Place, at_end, at_begin, behind, locate, stack_ip, stack_ips,
  get_func_in_call_stack, long_rank,
}
use ocolos_public.Functions.Plan.{IsSorted}
use ocolos_public.Functions.Locate.{Covers}
use ocolos_public.Functions.Stack.{get_func_in_call_stack-Covers}

module _ (k₀ : ℕ) (f₀ : FuncInfo) (m : Funcs) where
  locate-ne-at_begin :
      (ip k : ℕ) (f : FuncInfo) (rest : Funcs) → (locate ip (some (k, f)) rest ≡ at_begin) → ⊥
  unfolding locate
  locate-ne-at_begin ip k f [] e = cc
  locate-ne-at_begin ip k f ((j, g) ∷ rest) e = ground (arith, locate-ne-at_begin ip j g rest)

  locate-at_begin :
      (ip : ℕ) → (locate ip none ((k₀, f₀) ∷ m) ≡ at_begin) ↔ (long_rank ip ≤ long_rank k₀)
  unfolding locate
  locate-at_begin ip = ground (arith, locate-ne-at_begin ip k₀ f₀ m)

  stack_ip_cases :
      (before : Funcs) (ip : ℕ)
      → ((long_rank ip ≤ long_rank k₀) × (stack_ip ((k₀, f₀) ∷ m) before ip ≡ undefined))
        ⊎ ((long_rank k₀ < long_rank ip)
            × ((mid : Funcs) × (stack_ip ((k₀, f₀) ∷ m) before ip ≡ done mid)))
  unfolding stack_ip
  stack_ip_cases before ip = go (locate ip none ((k₀, f₀) ∷ m)) refl
    where
      above : (locate ip none ((k₀, f₀) ∷ m) ≡ at_begin → ⊥) → long_rank k₀ < long_rank ip
      above h = ground (arith, (locate-at_begin ip).1)

      go :
          (p : Place)
          → locate ip none ((k₀, f₀) ∷ m) ≡ p
          → ((long_rank ip ≤ long_rank k₀) × (stack_ip ((k₀, f₀) ∷ m) before ip ≡ undefined))
            ⊎ ((long_rank k₀ < long_rank ip)
                × ((mid : Funcs) × (stack_ip ((k₀, f₀) ∷ m) before ip ≡ done mid)))
      go at_end e = inr (above (λ b. cc (e, b)), (before, rw (e, stack_ip)))
      go at_begin e = inl ((locate-at_begin ip).0 e, rw (e, stack_ip))
      go (behind k f) e = inr (above (λ b. cc (e, b)), (assign k f before, rw (e, stack_ip)))

  stack_ips_undefined :
      (before : Funcs) (ips : List ℕ)
      → (stack_ips ((k₀, f₀) ∷ m) before ips ≡ undefined)
        ↔ ((ip : ℕ) × Has ip ips × (long_rank ip ≤ long_rank k₀))
  unfolding stack_ips
  stack_ips_undefined before [] = ((λ e. cc), λ (ip, h, le). absurd h)
  stack_ips_undefined before (ip ∷ ips) = elim (stack_ip_cases before ip) [
    | inl (low, e) ↦ rw (e, stack_ips) ((λ _. (ip, inl refl, low)), λ _. refl)
    | inr (high, (mid, e)) ↦
        rw (e, stack_ips)
          (
            (λ u. let (x, h, le) = (stack_ips_undefined mid ips).0 u in (x, inr h, le)),
            λ (x, h, le). elim h [
              | inl same ↦ absurd (omega (arith, ap long_rank same))
              | inr later ↦ (stack_ips_undefined mid ips).1 (x, later, le)
            ],
          )
  ]

  -- With a function in the table get_func_in_call_stack is undefined (it takes the predecessor of
  -- the first entry) exactly when a pointer, converted to a long,
  -- does not lie behind the first entry's address. (A pointer of 2^63 or more is a negative long.)
  pub get_func_in_call_stack_undefined :
      (ips : List ℕ)
      → (get_func_in_call_stack ips ((k₀, f₀) ∷ m) ≡ undefined)
        ↔ ((ip : ℕ) × Has ip ips × (long_rank ip ≤ long_rank k₀))
  unfolding get_func_in_call_stack
  get_func_in_call_stack_undefined ips = stack_ips_undefined [] ips

  stack_ips-ne-exited :
      (before : Funcs) (ips : List ℕ) → (stack_ips ((k₀, f₀) ∷ m) before ips ≡ exited) → ⊥
  unfolding stack_ips
  stack_ips-ne-exited before [] e = cc
  stack_ips-ne-exited before (ip ∷ ips) e = elim (stack_ip_cases before ip) [
    | inl (low, q) ↦ clash (rw (q, stack_ips) at e)
    | inr (high, (mid, q)) ↦ stack_ips-ne-exited mid ips (rw (q, stack_ips) at e)
  ]
    where
      clash : ◌≡◌ {A = Outcome Funcs} undefined exited → ⊥
      clash h = cc

  found_behind :
      (ips : List ℕ)
      → IsSorted ((k₀, f₀) ∷ m)
      → ((ip : ℕ) → Has ip ips → long_rank k₀ < long_rank ip)
      → Safe ⊥
          (λ found.
            (k : ℕ) (f : FuncInfo)
            → (lookup k found ≡ some f) ↔ ((ip : ℕ) × Has ip ips × Covers ((k₀, f₀) ∷ m) ip k f))
          (get_func_in_call_stack ips ((k₀, f₀) ∷ m))
  unfolding get_func_in_call_stack
  found_behind ips sorted behind_first =
      Holds-Safe _ (stack_ips ((k₀, f₀) ∷ m) [] ips) (stack_ips-ne-exited [] ips)
        (λ e.
          let (ip, h, low) = (stack_ips_undefined [] ips).0 e in
          let high = behind_first ip h in absurd (omega arith))
        (get_func_in_call_stack-Covers ((k₀, f₀) ∷ m) sorted ips)

-- The first address of an ordered table is its lowest.
lookup-first :
    (k₀ k : ℕ) (f₀ f : FuncInfo) (m : Funcs)
    → All (λ e. long_rank k₀ < long_rank e.0) m
    → lookup k ((k₀, f₀) ∷ m) ≡ some f
    → long_rank k₀ ≤ long_rank k
unfolding lookup
lookup-first k₀ k f₀ f [] h e = ground arith
lookup-first k₀ k f₀ f ((j, g) ∷ m) (low, hs) e = ground (arith, lookup-first k₀ k f₀ f m hs)

-- Addresses and pointers are compared as longs, so a pointer of 2^63 or more is negative. On an
-- ordered table, if some function starts below each pointer, get_func_in_call_stack returns,
-- with their data, exactly the functions that cover one of the pointers: the last one to start
-- below it, if another starts at it or above.
pub get_func_in_call_stack-found :
    (m : Funcs) (ips : List ℕ)
    → IsSorted m
    → ((ip : ℕ)
        → Has ip ips
        → (k : ℕ) × (f : FuncInfo) × (lookup k m ≡ some f) × (long_rank k < long_rank ip))
    → Safe ⊥
        (λ found.
          (k : ℕ) (f : FuncInfo)
          → (lookup k found ≡ some f) ↔ ((ip : ℕ) × Has ip ips × Covers m ip k f))
        (get_func_in_call_stack ips m)
unfolding get_func_in_call_stack lookup
get_func_in_call_stack-found [] [] sorted low = get_func_in_call_stack-Covers [] sorted []
get_func_in_call_stack-found [] (ip ∷ ips) sorted low =
    let (k, f, e, h) = low ip (inl refl) in absurd (clash e)
  where
    clash : {f : FuncInfo} → none ≡ some f → ⊥
    clash e = cc
get_func_in_call_stack-found ((k₀, f₀) ∷ m) ips (first, sorted) low =
    found_behind k₀ f₀ m ips (first, sorted)
      (λ ip h. let (k, f, e, below) = low ip h in omega (arith, lookup-first k₀ k f₀ f m first e))
