-- ===== src/Prelude/Maps.antt =====
-- Maps from numbers as association lists, in the order in which a loop over the map meets them.
use Prim.Native.Nat.{ℕ}
use mathlib.Core.Path.{◌≡◌, refl}
use mathlib.Core.Logic.{inl, inr, ◌↔◌, ◌≢◌}
use mathlib.Core.Bool.{Bool, true, false, ◌||◌}
use mathlib.Core.List.{List, [], ◌∷◌}
use mathlib.Core.Option.{Option, none, some}
use native.Mathlib.Omega.{arith}
use ocolos_public.Prelude.Tests.{◌==◌, if◌then◌else◌, Bool-cases}

none-ne-some {ℓ} : {V : Type ℓ} {v : V} → none ≢ some v
none-ne-some e = cc

module _ {ℓ} {V : Type ℓ} where
  -- `find(k)`, with `none` for `end()`.
  unfoldable pub lookup : ℕ → List (ℕ × V) → Option V
  lookup k [] = none
  lookup k ((j, v) ∷ m) = if j == k then some v else lookup k m

  -- `find(k) != end()`.
  unfoldable pub has_key : ℕ → List (ℕ × V) → Bool
  has_key k [] = false
  has_key k ((j, v) ∷ m) = j == k || has_key k m

  -- `m[k] = v`.
  unfoldable pub assign : ℕ → V → List (ℕ × V) → List (ℕ × V)
  assign k v [] = (k, v) ∷ []
  assign k v ((j, w) ∷ m) = if j == k then (k, v) ∷ m else (j, w) ∷ assign k v m

  pub lookup-assign :
      (k j : ℕ) (v : V) (m : List (ℕ × V))
      → lookup j (assign k v m) ≡ (if k == j then some v else lookup j m)
  unfolding lookup assign
  lookup-assign k j v [] = refl
  lookup-assign k j v ((i, w) ∷ m) = ground (arith, lookup-assign k j v m)

  pub has_key_iff : (k : ℕ) (m : List (ℕ × V)) → (has_key k m ≡ false) ↔ (lookup k m ≡ none)
  unfolding lookup has_key
  has_key_iff k [] = ground arith
  has_key_iff k ((j, v) ∷ m) = ground (arith, has_key_iff k m)

  pub has_key-some :
      (k : ℕ) (m : List (ℕ × V)) → (has_key k m ≡ true) ↔ ((v : V) × (lookup k m ≡ some v))
  unfolding lookup has_key
  has_key-some k [] = ((λ e. cc), λ e. absurd (none-ne-some (e.1)))
  has_key-some k ((j, v) ∷ m) = elim (Bool-cases (j == k)) [
    | inl same ↦ rw same ((λ e. (v, refl)), λ e. refl)
    | inr other ↦ rw other (has_key-some k m)
  ]

  -- No key stands twice: the list is a map.
  abbrev pub IsMap : List (ℕ × V) → Type ℓ
  IsMap [] = Unit {ℓ}
  IsMap ((k, v) ∷ m) = (has_key k m ≡ false) × IsMap m
