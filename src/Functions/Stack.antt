-- ===== src/Functions/Stack.antt =====
-- get_func_in_call_stack: which function an instruction pointer is counted for.
use ocolos_public.Prelude.{
  ℕ, List, [], ◌∷◌, ◌≡◌, refl, ◌⊎◌, inl, inr, ◌↔◌, none, some, ◌==◌, lookup, assign, lookup-assign,
  Bool-cases, arith, Has, done, undefined, Holds, Holds-bind, Holds-map, subst,
}
use ocolos_public.Functions.{
  FuncInfo, Funcs, Place, at_end, at_begin, behind, locate, stack_ip, stack_ips,
  get_func_in_call_stack,
}
use ocolos_public.Functions.Plan.{IsSorted}
use ocolos_public.Functions.Locate.{Covers, locate-Covers}

-- The functions of `found` are those of `before` and those that cover a pointer of the list.
abbrev Added : Funcs → Funcs → List ℕ → Funcs → Type 0
Added m before ips found =
    (k : ℕ) (f : FuncInfo)
    → (lookup k found ≡ some f)
      ↔ ((lookup k before ≡ some f) ⊎ ((ip : ℕ) × Has ip ips × Covers m ip k f))

-- `found` holds only functions of the table, with its data.
abbrev FromTable : Funcs → Funcs → Type 0
FromTable m found = (k : ℕ) (f : FuncInfo) → lookup k found ≡ some f → lookup k m ≡ some f

only : {x ip : ℕ} → Has x (ip ∷ []) → x ≡ ip
only (inl e) = e
only (inr h) = absurd h

Covers-eq :
    {m : Funcs} {ip k j : ℕ} {f g : FuncInfo} → k ≡ j → f ≡ g → Covers m ip k f → Covers m ip j g
Covers-eq {m} {ip} {k} {g = g} p q c = subst (λ x. Covers m ip x g) p (subst (Covers m ip k) q c)

module _ (m : Funcs) (sorted : IsSorted m) where
  Covers-start :
      (ip k j : ℕ) (f g : FuncInfo) → Covers m ip k f → Covers m ip j g → (k ≡ j) × (f ≡ g)
  Covers-start ip k j f g c d =
      let p = (locate-Covers ip k f m sorted).1 c in
      let q = (locate-Covers ip j g m sorted).1 d in (cc (p, q), cc (p, q))

  -- A pointer that has a function adds it, and changes nothing else.
  FromTable-assign :
      (before : Funcs) (ip k : ℕ) (f : FuncInfo)
      → FromTable m before
      → Covers m ip k f
      → FromTable m (assign k f before)
  FromTable-assign before ip k f known c j g h = elim (Bool-cases (k == j)) [
    | inl same ↦ ground (arith, lookup-assign k j f before, c.is_known)
    | inr other ↦ known j g (ground (arith, lookup-assign k j f before))
  ]

  Added-assign :
      (before : Funcs) (ip k : ℕ) (f : FuncInfo)
      → FromTable m before
      → Covers m ip k f
      → Added m before (ip ∷ []) (assign k f before)
  Added-assign before ip k f known c j g = elim (Bool-cases (k == j)) [
    | inl same ↦ (
      (λ h.
          inr (
            ip,
            inl refl,
            Covers-eq (ground arith) (ground (arith, lookup-assign k j f before)) c,
          )),
      λ h. elim h [
        | inl e ↦ ground (arith, lookup-assign k j f before, c.is_known, known j g e)
        | inr (x, hx, d) ↦ ground (arith, lookup-assign k j f before, c.is_known, d.is_known)
      ],
    )
    | inr other ↦ (
      (λ h. inl (ground (arith, lookup-assign k j f before))),
      λ h. elim h [
        | inl e ↦ ground (arith, lookup-assign k j f before)
        | inr (x, hx, d) ↦
            let (e, _) = Covers-start ip k j f g c (subst (λ y. Covers m y j g) (only hx) d) in
            ground (arith, e)
      ],
    )
  ]

  Added-none :
      (before : Funcs) (ip : ℕ) → locate ip none m ≡ at_end → Added m before (ip ∷ []) before
  Added-none before ip e j g = (
    (λ h. inl h),
    λ h. elim h [
      | inl p ↦ p
      | inr (x, hx, d) ↦
          let q = (locate-Covers ip j g m sorted).1 (subst (λ y. Covers m y j g) (only hx) d) in
          cc (e, q)
    ],
  )

  Added-cons :
      (before mid found : Funcs) (ip : ℕ) (ips : List ℕ)
      → Added m before (ip ∷ []) mid
      → Added m mid ips found
      → Added m before (ip ∷ ips) found
  Added-cons before mid found ip ips one more k f = (
    (λ h. elim ((more k f).0 h) [
      | inl p ↦ elim ((one k f).0 p) [ inl q ↦ inl q | inr (x, hx, c) ↦ inr (x, inl (only hx), c) ]
      | inr (x, hx, c) ↦ inr (x, inr hx, c)
    ]),
    λ h. elim h [
      | inl p ↦ (more k f).1 (inl ((one k f).1 (inl p)))
      | inr (x, inl same, c) ↦ (more k f).1 (inl ((one k f).1 (inr (x, inl same, c))))
      | inr (x, inr hx, c) ↦ (more k f).1 (inr (x, hx, c))
    ],
  )

  stack_ip-Added :
      (before : Funcs) (ip : ℕ)
      → FromTable m before
      → Holds (λ found. FromTable m found × Added m before (ip ∷ []) found) (stack_ip m before ip)
  unfolding stack_ip
  stack_ip-Added before ip known = go (locate ip none m) refl
    where
      go :
          (p : Place)
          → locate ip none m ≡ p
          → Holds
              (λ found. FromTable m found × Added m before (ip ∷ []) found)
              (elim p [
                | at_end ↦ done before
                | at_begin ↦ undefined
                | behind k f ↦ done (assign k f before)
              ])
      go at_end e = (known, Added-none before ip e)
      go at_begin e = tt
      go (behind k f) e =
          let c = (locate-Covers ip k f m sorted).0 e in
          (FromTable-assign before ip k f known c, Added-assign before ip k f known c)

  stack_ips-Added :
      (before : Funcs) (ips : List ℕ)
      → FromTable m before
      → Holds (Added m before ips) (stack_ips m before ips)
  unfolding stack_ips
  stack_ips-Added before [] known =
      λ k f. ((λ h. inl h), λ h. elim h [ inl p ↦ p | inr (x, hx, c) ↦ absurd hx ])
  stack_ips-Added before (ip ∷ ips) known =
      Holds-bind (λ mid. FromTable m mid × Added m before (ip ∷ []) mid) _ (stack_ip m before ip) _
        (stack_ip-Added before ip known)
        (λ mid (known', one).
          Holds-map _ _ (stack_ips m mid ips) (stack_ips-Added mid ips known')
            (λ found more. Added-cons before mid found ip ips one more))

  -- On an ordered table get_func_in_call_stack returns, with their data, exactly the functions that
  -- cover one of the pointers: the last one to start below it, if another starts at it or above.
  pub get_func_in_call_stack-Covers :
      (ips : List ℕ)
      → Holds
          (λ found.
            (k : ℕ) (f : FuncInfo)
            → (lookup k found ≡ some f) ↔ ((ip : ℕ) × Has ip ips × Covers m ip k f))
          (get_func_in_call_stack ips m)
  unfolding get_func_in_call_stack
  get_func_in_call_stack-Covers ips =
      Holds-map _ _ (stack_ips m [] ips) (stack_ips-Added [] ips (λ k f e. unfold lookup in cc))
        (λ found added k f. (
          (λ h. elim ((added k f).0 h) [ inl e ↦ absurd (empty k f e) | inr c ↦ c ]),
          λ c. (added k f).1 (inr c),
        ))
    where
      empty : (k : ℕ) (f : FuncInfo) → lookup k [] ≡ some f → ⊥
      empty k f e = unfold lookup in cc
