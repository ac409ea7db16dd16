-- ===== src/Patch/Selection.antt =====
-- The records that extract_call_sites writes are those of the call sites to patch.
use ocolos_public.Prelude.{
  ℕ, ◌≡◌, refl, sym, ap, ◌∙◌, ◌⊎◌, inl, inr, ◌↔◌, true, false, List, [], ◌∷◌, ◌++◌, Option, none,
  some, lookup, has_key, has_key_iff, arith, Bool-cases, IsMap, Has, ◌==◌, ==_iff, subst,
}
use ocolos_public.Functions.{FuncInfo, Funcs}
use ocolos_public.Records.{Record}
use ocolos_public.CallSites.{CallSite, Sites, SitesList}
use ocolos_public.CallSites.Groups.{group}
use ocolos_public.Patch.Output.{call_record, is_patched, caller_records, call_records}

-- The record is one of the list.
abbrev pub Among : Record → List Record → Type 0
Among r [] = ⊥
Among r (x ∷ xs) = (r ≡ x) ⊎ Among r xs

Among-append : (r : Record) (xs ys : List Record) → Among r (xs ++ ys) ↔ (Among r xs ⊎ Among r ys)
Among-append r [] ys = ((λ h. inr h), λ h. elim h [ inl e ↦ absurd e | inr k ↦ k ])
Among-append r (x ∷ xs) ys = ground (arith, Among-append r xs ys)

module _ (unset : CallSite) (sites : Sites) (stack : Funcs) where
  caller_records-Among :
      (moved : FuncInfo) (addrs : List ℕ) (r : Record)
      → Among r (caller_records unset sites stack moved addrs) ↔ (
          (addr : ℕ) × Has addr addrs
          × (is_patched unset sites stack addr ≡ true)
          × (r ≡ call_record unset sites stack moved addr))
  unfolding caller_records
  caller_records-Among moved [] r = ((λ h. absurd h), λ (a, h, p, e). h)
  caller_records-Among moved (addr ∷ addrs) r =
      elim (Bool-cases (is_patched unset sites stack addr)) [
        | inl on ↦ rw on (
          (λ h. elim h [
            | inl e ↦ (addr, inl refl, on, e)
            | inr t ↦
                let (a, i, p, e) = (caller_records-Among moved addrs r).0 t in (a, inr i, p, e)
          ]),
          λ (a, i, p, e). elim i [
            | inl same ↦ inl (e ∙ ap (call_record unset sites stack moved) same)
            | inr t ↦ inr ((caller_records-Among moved addrs r).1 (a, t, p, e))
          ],
        )
        | inr off ↦ rw off (
          (λ h. let (a, i, p, e) = (caller_records-Among moved addrs r).0 h in (a, inr i, p, e)),
          λ (a, i, p, e). elim i [
            | inl same ↦ absurd (clash (sym off ∙ ap (is_patched unset sites stack) (sym same) ∙ p))
            | inr t ↦ (caller_records-Among moved addrs r).1 (a, t, p, e)
          ],
        )
      ]
    where
      clash : false ≡ true → ⊥
      clash e = cc

  -- The record is the new call of a site that is listed under a moved function and whose own
  -- function is on a call stack.
  abbrev pub IsPatch : SitesList → Funcs → Record → Type 0
  IsPatch groups moved_func r =
      (k : ℕ) × (moved : FuncInfo) × (addr : ℕ) × (lookup k moved_func ≡ some moved)
      × Has addr (group groups k)
      × (is_patched unset sites stack addr ≡ true)
      × (r ≡ call_record unset sites stack moved addr)

  IsPatch-cons :
      (groups : SitesList) (k : ℕ) (moved : FuncInfo) (moved_func : Funcs) (r : Record)
      → has_key k moved_func ≡ false
      → IsPatch groups moved_func r
      → IsPatch groups ((k, moved) ∷ moved_func) r
  unfolding lookup
  IsPatch-cons groups k moved moved_func r new (j, m, a, l, h, p, e) =
      (j, m, a, ground (arith, has_key_iff k moved_func), h, p, e)

  pub call_records-Among :
      (groups : SitesList) (moved_func : Funcs) (r : Record)
      → IsMap moved_func
      → Among r (call_records unset sites stack groups moved_func) ↔ IsPatch groups moved_func r
  unfolding call_records lookup
  call_records-Among groups [] r m = ((λ h. absurd h), λ (k, f, a, l, h, p, e). cc)
  call_records-Among groups ((k, moved) ∷ moved_func) r (new, m) =
      go (lookup k groups) refl (call_records-Among groups moved_func r m)
    where
      here : (addrs : List ℕ) → lookup k groups ≡ some addrs → group groups k ≡ addrs
      here addrs e = rw (e, group)

      moved_to : (j : ℕ) → (k == j) ≡ true → group groups j ≡ group groups k
      moved_to j same = ap (group groups) (sym ((==_iff k j).0 same))

      go :
          (o : Option (List ℕ))
          → lookup k groups ≡ o
          → Among r (call_records unset sites stack groups moved_func) ↔ IsPatch groups moved_func r
          → Among r (call_records unset sites stack groups ((k, moved) ∷ moved_func))
            ↔ IsPatch groups ((k, moved) ∷ moved_func) r
      go none e ih =
          rw (e, call_records)
            (
              (λ h. IsPatch-cons groups k moved moved_func r new (ih.0 h)),
              λ (j, f, a, l, h, p, q). elim (Bool-cases (k == j)) [
                | inl same ↦
                    let empty : group groups k ≡ [] = rw (e, group) in
                    absurd (subst (Has a) (moved_to j same ∙ empty) h)
                | inr other ↦ ih.1 (j, f, a, ground arith, h, p, q)
              ],
            )
      go (some addrs) e ih =
          rw (e, call_records)
            (
              (λ h. elim ((Among-append r (caller_records unset sites stack moved addrs) _).0 h) [
                | inl t ↦
                    let (a, i, p, q) = (caller_records-Among moved addrs r).0 t in
                    (k, moved, a, ground arith, rw (here addrs e) i, p, q)
                | inr t ↦ IsPatch-cons groups k moved moved_func r new (ih.0 t)
              ]),
              λ (j, f, a, l, h, p, q).
                  (Among-append r (caller_records unset sites stack moved addrs) _).1
                    (elim (Bool-cases (k == j)) [
                      | inl same ↦
                          let found : moved ≡ f = ground arith in
                          inl (
                            (caller_records-Among moved addrs r).1 (
                              a,
                              subst (Has a) (moved_to j same ∙ here addrs e) h,
                              p,
                              q ∙ ap (λ x. call_record unset sites stack x a) (sym found),
                            ))
                      | inr other ↦ inr (ih.1 (j, f, a, ground arith, h, p, q))
                    ]),
            )
