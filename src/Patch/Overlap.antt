-- ===== src/Patch/Overlap.antt =====
-- Records that do not overlap: each leaves all its bytes.
use ocolos_public.Prelude.{
  ℕ, zero, suc, ◌+◌, ◌≤◌, ◌<◌, ◌≡◌, refl, sym, ◌⊎◌, inl, inr, List, [], ◌∷◌, none, some, Bytes,
  length, get_elem?, arith, All, subst,
}
use ocolos_public.Records.{Record}
use ocolos_public.Tracee.Insertion.{code_byte-get_elem?, code_byte_cases}
use ocolos_public.Tracee.Machine.{records_byte}
use ocolos_public.Patch.Selection.{Among}

-- Where a record and the later ones do not overlap, its bytes are the ones that stay.
abbrev pub Apart : Record → Record → Type 0
Apart r t = (r.address + length r.code ≤ t.address) ⊎ (t.address + length t.code ≤ r.address)

-- No two records overlap.
abbrev pub AreApart : List Record → Type 0
AreApart [] = Unit
AreApart (r ∷ rs) = All (Apart r) rs × AreApart rs

pub records_byte_outside :
    (r : Record) (rs : List Record) (a : ℕ)
    → All (Apart r) rs
    → r.address ≤ a
    → a < r.address + length r.code
    → records_byte 0 rs a ≡ none
records_byte_outside r [] a h lo hi = refl
records_byte_outside r (t ∷ rs) a (h, hs) lo hi = elim (code_byte_cases (t.address + 0) t.code a) [
  | inl e ↦ rw (records_byte_outside r rs a hs lo hi, e)
  | inr (lo', hi') ↦ absurd (omega arith)
]

pub get_elem?_range : (code : Bytes) (i b : ℕ) → get_elem? code i ≡ some b → i < length code
get_elem?_range [] i b e = cc
get_elem?_range (c ∷ code) zero b e = omega arith
get_elem?_range (c ∷ code) (suc i) b e = omega (arith, get_elem?_range code i b e)

records_byte_head :
    (r : Record) (rs : List Record) (i b : ℕ)
    → All (Apart r) rs
    → get_elem? r.code i ≡ some b
    → records_byte 0 (r ∷ rs) (r.address + i) ≡ some b
records_byte_head r rs i b h q =
    let short = get_elem?_range r.code i b q in
    let start : r.address + 0 ≡ r.address = omega arith in
    rw
      (
        records_byte_outside r rs (r.address + i) h (omega arith) (omega arith),
        start,
        code_byte-get_elem? r.address r.code i,
      )
      q

-- Every byte of a record of the list is the byte that the list leaves at its place.
pub records_byte-Among :
    (r : Record) (rs : List Record) (i b : ℕ)
    → AreApart rs
    → Among r rs
    → get_elem? r.code i ≡ some b
    → records_byte 0 rs (r.address + i) ≡ some b
records_byte-Among r [] i b h k q = absurd k
records_byte-Among r (x ∷ rs) i b (h, hs) (inl e) q =
    subst (λ y. records_byte 0 (y ∷ rs) (r.address + i) ≡ some b) e
      (records_byte_head r rs i b (subst (λ y. All (Apart y) rs) (sym e) h) q)
records_byte-Among r (x ∷ rs) i b (h, hs) (inr k) q = rw (records_byte-Among r rs i b hs k q)
