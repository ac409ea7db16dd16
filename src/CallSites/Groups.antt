-- ===== src/CallSites/Groups.antt =====
-- The merge of the threads' maps, and the grouping of the call sites by the function they call.
use ocolos_public.Prelude.{
  ℕ, ◌≡◌, refl, sym, ◌∙◌, inl, inr, ◌↔◌, false, List, [], ◌∷◌, ◌++◌, Option, none, some, ◌==◌,
  if◌then◌else◌, lookup, has_key, assign, lookup-assign, has_key_iff, Bool-cases, arith, IsMap, Has,
  append-nil, append_assoc,
}
use ocolos_public.CallSites.{
  CallSite, Sites, SitesList, insert_sites, merge_sites, group_site, group_sites,
}

-- The addresses that the groups list for a target.
abbrev pub group : SitesList → ℕ → List ℕ
group groups target = elim (lookup target groups) [ none ↦ [] | some addrs ↦ addrs ]

abbrev first_of_two : Option CallSite → Option CallSite → Option CallSite
first_of_two (some s) other = some s
first_of_two none other = other

lookup-insert_sites :
    (sites more : Sites) (k : ℕ)
    → lookup k (insert_sites sites more) ≡ first_of_two (lookup k sites) (lookup k more)
unfolding insert_sites lookup
lookup-insert_sites sites [] k = ground arith
lookup-insert_sites sites ((j, s) ∷ more) k = ground (
  arith,
  lookup-insert_sites sites more k,
  lookup-insert_sites (assign j s sites) more k,
  lookup-assign j k s sites,
  has_key_iff j sites,
)

-- The call site that the first map with the address has for it.
pub first_site : List Sites → ℕ → Option CallSite
first_site [] k = none
first_site (part ∷ parts) k = first_of_two (lookup k part) (first_site parts k)

lookup-merge :
    (sites : Sites) (parts : List Sites) (k : ℕ)
    → lookup k (merge_sites sites parts) ≡ first_of_two (lookup k sites) (first_site parts k)
unfolding merge_sites first_site
lookup-merge sites [] k = ground arith
lookup-merge sites (part ∷ parts) k =
    ground (arith, lookup-merge (insert_sites sites part) parts k, lookup-insert_sites sites part k)

-- The merged map has the call sites of all threads; where two have one address, the first counts.
pub lookup-merge_sites :
    (parts : List Sites) (k : ℕ) → lookup k (merge_sites [] parts) ≡ first_site parts k
unfolding lookup
lookup-merge_sites parts k = lookup-merge [] parts k

group-group_site :
    (groups : SitesList) (k : ℕ) (site : CallSite) (target : ℕ)
    → group (group_site groups k site) target ≡ (
        if site.target_func_addr == target
        then group groups target ++ (k ∷ [])
        else group groups target)
unfolding group_site
group-group_site groups k site target = go (lookup site.target_func_addr groups) refl
  where
    go :
        (o : Option (List ℕ))
        → lookup site.target_func_addr groups ≡ o
        → group (group_site groups k site) target ≡ (
            if site.target_func_addr == target
            then group groups target ++ (k ∷ [])
            else group groups target)
    go none e = ground (arith, lookup-assign site.target_func_addr target (k ∷ []) groups)
    go (some addrs) e =
        ground (arith, lookup-assign site.target_func_addr target (addrs ++ (k ∷ [])) groups)

-- The addresses of the call sites with a target, in the order of the map.
abbrev callers : Sites → ℕ → List ℕ
callers [] target = []
callers ((k, site) ∷ sites) target =
    if site.target_func_addr == target then k ∷ callers sites target else callers sites target

group-group_sites :
    (groups : SitesList) (sites : Sites) (target : ℕ)
    → group (group_sites groups sites) target ≡ group groups target ++ callers sites target
unfolding group_sites
group-group_sites groups [] target = sym (append-nil (group groups target))
group-group_sites groups ((k, site) ∷ sites) target =
    group-group_sites (group_site groups k site) sites target
    ∙ rw group-group_site (elim (Bool-cases (site.target_func_addr == target)) [
      | inl same ↦ rw same (append_assoc (group groups target) (k ∷ []) (callers sites target))
      | inr other ↦ rw other
    ])

-- The map has a call site at the address, with the target.
abbrev pub Calls : Sites → ℕ → ℕ → Type 0
Calls sites k target =
    (site : CallSite) × (lookup k sites ≡ some site) × (site.target_func_addr ≡ target)

absent :
    (k : ℕ) (sites : Sites) (target : ℕ)
    → has_key k sites ≡ false
    → Has k (callers sites target)
    → ⊥
unfolding has_key
absent k [] target e h = h
absent k ((j, site) ∷ sites) target e h = ground (arith, absent k sites target)

callers-Calls :
    (sites : Sites) (k target : ℕ)
    → IsMap sites
    → Has k (callers sites target) ↔ Calls sites k target
unfolding lookup
callers-Calls [] k target m = ((λ h. absurd h), λ (site, e, t). cc)
callers-Calls ((j, site) ∷ sites) k target (new, m) = elim (Bool-cases (j == k)) [
  | inl same ↦ (
    (λ h. (site, ground arith, ground (arith, absent k sites target))),
    λ (found, e, t). ground arith,
  )
  | inr other ↦ (
    (λ h.
        let (found, e, t) = (callers-Calls sites k target m).0 (ground arith) in
        (found, ground arith, t)),
    λ (found, e, t).
        let later = (callers-Calls sites k target m).1 (found, ground arith, t) in ground arith,
  )
]

-- group_sites lists an address under a target exactly when the map has a call site there that calls
-- it.
pub group_sites-Calls :
    (sites : Sites) (k target : ℕ)
    → IsMap sites
    → Has k (group (group_sites [] sites) target) ↔ Calls sites k target
unfolding lookup
group_sites-Calls sites k target m =
    rw (group-group_sites [] sites target) (callers-Calls sites k target m)
