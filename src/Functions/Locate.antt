-- ===== src/Functions/Locate.antt =====
-- lower_bound and prev on an ordered table: the function that starts before a pointer.
use ocolos_public.Prelude.{
  ℕ, ◌<◌, ◌≤◌, [], ◌∷◌, ◌≡◌, refl, ◌⊎◌, inl, inr, ◌↔◌, none, some, ltb, ltb→lt, lookup, Bool-cases,
  arith, All,
}
use ocolos_public.Functions.{FuncInfo, Funcs, behind, locate, long_rank}
use ocolos_public.Functions.Plan.{IsSorted, All-lower}

-- Addresses and pointers are compared as longs. Some function starts at the pointer or above it.
abbrev pub Reaches : ℕ → Funcs → Type 0
Reaches ip [] = ⊥
Reaches ip ((k, f) ∷ m) = (long_rank ip ≤ long_rank k) ⊎ Reaches ip m

-- The last function that starts below the pointer, where another starts at the pointer or above.
pub record Covers (m : Funcs) (ip k : ℕ) (f : FuncInfo) : Type 0 where
  pub is_known : lookup k m ≡ some f
  pub starts_below : long_rank k < long_rank ip
  pub has_next : Reaches ip m
  pub is_last : All (λ e. (long_rank ip ≤ long_rank e.0) ⊎ (long_rank e.0 ≤ long_rank k)) m

lookup_below : (k : ℕ) (m : Funcs) → All (λ e. long_rank k < long_rank e.0) m → lookup k m ≡ none
unfolding lookup
lookup_below k [] h = refl
lookup_below k ((j, g) ∷ m) (p, hs) = ground (arith, lookup_below k m hs)

All-above :
    (ip k j : ℕ) (m : Funcs)
    → long_rank ip ≤ long_rank j
    → All (λ e. long_rank j < long_rank e.0) m
    → All (λ e. (long_rank ip ≤ long_rank e.0) ⊎ (long_rank e.0 ≤ long_rank k)) m
All-above ip k j [] h hs = tt
All-above ip k j ((i, g) ∷ m) h (p, hs) = (inl (omega arith), All-above ip k j m h hs)

locate_sound :
    (ip k k₀ : ℕ) (f f₀ : FuncInfo) (m : Funcs)
    → long_rank k₀ < long_rank ip
    → IsSorted ((k₀, f₀) ∷ m)
    → locate ip (some (k₀, f₀)) m ≡ behind k f
    → Covers ((k₀, f₀) ∷ m) ip k f × (long_rank k₀ ≤ long_rank k)
unfolding locate lookup
locate_sound ip k k₀ f f₀ [] below s e = cc
locate_sound ip k k₀ f f₀ ((j, g) ∷ m) below ((p, ps), (q, qs)) e =
    elim (Bool-cases (ltb (long_rank j) (long_rank ip))) [
      | inl less ↦
          let (c, le) =
            locate_sound ip k j f g m (ltb→lt (long_rank j) (long_rank ip) less) (q, qs)
              (ground arith) in
          (
            record {
              is_known = ground (arith, c.is_known);
              starts_below = c.starts_below;
              has_next = ground (arith, c.has_next);
              is_last = ground (arith, c.is_last);
            },
            omega arith,
          )
      | inr more ↦ ground (arith, All-above ip k j m)
    ]

locate_complete :
    (ip k k₀ : ℕ) (f f₀ : FuncInfo) (m : Funcs)
    → long_rank k₀ < long_rank ip
    → IsSorted ((k₀, f₀) ∷ m)
    → Covers ((k₀, f₀) ∷ m) ip k f
    → locate ip (some (k₀, f₀)) m ≡ behind k f
unfolding locate lookup
locate_complete ip k k₀ f f₀ [] below s c = ground (arith, c.has_next)
locate_complete ip k k₀ f f₀ ((j, g) ∷ m) below ((p, ps), (q, qs)) c =
    elim (Bool-cases (ltb (long_rank j) (long_rank ip))) [
      | inl less ↦
          rw (less, locate)
            (locate_complete ip k j f g m (ltb→lt (long_rank j) (long_rank ip) less) (q, qs)
              (record {
                is_known = ground (arith, c.is_known, c.is_last);
                starts_below = c.starts_below;
                has_next = ground (arith, c.has_next);
                is_last = ground (arith, c.is_last);
              }))
      | inr more ↦ ground (arith, c.is_known, c.starts_below, lookup_below k m, All-lower k j m)
    ]

-- On an ordered table lower_bound and prev find the function that covers the pointer, and only it.
pub locate-Covers :
    (ip k : ℕ) (f : FuncInfo) (m : Funcs)
    → IsSorted m
    → (locate ip none m ≡ behind k f) ↔ Covers m ip k f
unfolding locate lookup
locate-Covers ip k f [] s = ((λ e. cc), λ c. absurd c.has_next)
locate-Covers ip k f ((j, g) ∷ m) (q, qs) = elim (Bool-cases (ltb (long_rank j) (long_rank ip))) [
  | inl less ↦
      rw (less, locate)
        (
          (λ e. (locate_sound ip k j f g m (ltb→lt (long_rank j) (long_rank ip) less) (q, qs) e).0),
          locate_complete ip k j f g m (ltb→lt (long_rank j) (long_rank ip) less) (q, qs),
        )
  | inr more ↦
      rw (more, locate)
        (
          (λ e. cc),
          λ c. ground (arith, c.is_known, c.starts_below, lookup_below k m, All-lower k j m),
        )
]

pub Covers-unique :
    {m : Funcs} {ip ip' k : ℕ} {f f' : FuncInfo} → Covers m ip k f → Covers m ip' k f' → f ≡ f'
Covers-unique c c' = cc (c.is_known, c'.is_known)
