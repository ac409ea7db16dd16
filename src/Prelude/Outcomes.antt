-- ===== src/Prelude/Outcomes.antt =====
-- How a call ends: with a value, by `exit(-1)`, or in undefined behaviour (a read outside an
-- object, a fault, an exception that nothing catches).
use mathlib.Core.Path.{◌≡◌, refl, subst}

pub data Outcome {ℓ} (A : Type ℓ) : Type ℓ where
  done : A → Outcome A
  exited : Outcome A
  undefined : Outcome A

infixl 5 ◌>>=◌ ◌>>◌
abbrev pub ◌>>=◌ {ℓ κ} : {A : Type ℓ} {B : Type κ} → Outcome A → (A → Outcome B) → Outcome B
done a >>= f = f a
exited >>= f = exited
undefined >>= f = undefined

abbrev pub ◌>>◌ {ℓ} : {B : Type ℓ} → Outcome (Unit {0}) → Outcome B → Outcome B
m >> k = m >>= λ _. k

pub >>=-eq-done {ℓ κ} :
    {A : Type ℓ} {B : Type κ} (m : Outcome A) (f : A → Outcome B) {b : B}
    → (m >>= f) ≡ done b
    → (a : A) × (m ≡ done a) × (f a ≡ done b)
>>=-eq-done (done a) f h = (a, refl, h)
>>=-eq-done exited f h = cc
>>=-eq-done undefined f h = cc

-- The value, if there is one, has the property.
abbrev pub Holds {ℓ} : {A : Type ℓ} → (A → Type 0) → Outcome A → Type 0
Holds P (done a) = P a
Holds P exited = Unit
Holds P undefined = Unit

pub Holds-bind {ℓ κ} :
    {A : Type ℓ} {B : Type κ} (P : A → Type 0) (Q : B → Type 0) (m : Outcome A) (f : A → Outcome B)
    → Holds P m
    → ((a : A) → P a → Holds Q (f a))
    → Holds Q (m >>= f)
Holds-bind P Q (done a) f h k = k a h
Holds-bind P Q exited f h k = tt
Holds-bind P Q undefined f h k = tt

pub Holds-done {ℓ} :
    {A : Type ℓ} (P : A → Type 0) (m : Outcome A) {a : A} → Holds P m → m ≡ done a → P a
Holds-done P (done a) h e = subst P (cc) h
Holds-done P exited h e = cc
Holds-done P undefined h e = cc

pub Holds-map {ℓ} :
    {A : Type ℓ} (P Q : A → Type 0) (m : Outcome A) → Holds P m → ((a : A) → P a → Q a) → Holds Q m
Holds-map P Q (done a) h k = k a h
Holds-map P Q exited h k = tt
Holds-map P Q undefined h k = tt

-- The call is not undefined, its value, if there is one, has the property, and `E` holds where it
-- exits.
abbrev pub Safe {ℓ} : {A : Type ℓ} → Type 0 → (A → Type 0) → Outcome A → Type 0
Safe E P (done a) = P a
Safe E P exited = E
Safe E P undefined = ⊥

pub Safe-bind {ℓ κ} :
    {A : Type ℓ} {B : Type κ} (E : Type 0) (P : A → Type 0) (Q : B → Type 0) (m : Outcome A)
    (f : A → Outcome B)
    → Safe E P m
    → ((a : A) → P a → Safe E Q (f a))
    → Safe E Q (m >>= f)
Safe-bind E P Q (done a) f h k = k a h
Safe-bind E P Q exited f h k = h
Safe-bind E P Q undefined f h k = absurd h

pub Safe-map {ℓ} :
    {A : Type ℓ} (E : Type 0) (P Q : A → Type 0) (m : Outcome A)
    → Safe E P m
    → ((a : A) → P a → Q a)
    → Safe E Q m
Safe-map E P Q (done a) h k = k a h
Safe-map E P Q exited h k = h
Safe-map E P Q undefined h k = absurd h

-- A call that is known to be neither undefined nor an exit has the property that its value has.
pub Holds-Safe {ℓ} :
    {A : Type ℓ} (P : A → Type 0) (m : Outcome A)
    → (m ≡ exited → ⊥)
    → (m ≡ undefined → ⊥)
    → Holds P m
    → Safe ⊥ P m
Holds-Safe P (done a) no_exit no_undefined h = h
Holds-Safe P exited no_exit no_undefined h = no_exit refl
Holds-Safe P undefined no_exit no_undefined h = no_undefined refl

pub Safe-Holds {ℓ} :
    {A : Type ℓ} (E : Type 0) (P : A → Type 0) (m : Outcome A) → Safe E P m → Holds P m
Safe-Holds E P (done a) h = h
Safe-Holds E P exited h = tt
Safe-Holds E P undefined h = tt

-- A call that is safe for two reasons has both properties.
pub Safe-both {ℓ} :
    {A : Type ℓ} (E : Type 0) (P Q : A → Type 0) (m : Outcome A)
    → Safe E P m
    → Safe E Q m
    → Safe E (λ a. P a × Q a) m
Safe-both E P Q (done a) h k = (h, k)
Safe-both E P Q exited h k = h
Safe-both E P Q undefined h k = absurd h

pub Safe-defined {ℓ} :
    {A : Type ℓ} (E : Type 0) (P : A → Type 0) (m : Outcome A) → Safe E P m → m ≡ undefined → ⊥
Safe-defined E P (done a) h e = cc
Safe-defined E P exited h e = cc
Safe-defined E P undefined h e = h

pub Safe-done {ℓ} :
    {A : Type ℓ} (E : Type 0) (P : A → Type 0) (m : Outcome A) {a : A}
    → Safe E P m
    → m ≡ done a
    → P a
Safe-done E P m h = Holds-done P m (Safe-Holds E P m h)
