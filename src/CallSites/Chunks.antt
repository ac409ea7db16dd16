-- ===== src/CallSites/Chunks.antt =====
-- The split of the functions into sixteen vectors, one for each thread.
use ocolos_public.Prelude.{
  ℕ, zero, suc, ◌+◌, ◌-◌, ◌*◌, ◌/◌, ◌%◌, ◌≤◌, ◌≡◌, refl, sym, ap, ◌∙◌, List, [], ◌∷◌, ◌++◌, length,
  take, drop, take-append-drop, length-take, length-drop, arith, All, append-nil,
}
use ocolos_public.CallSites.{chunks_from, thread_chunks}

module _ {ℓ} {A : Type ℓ} where
  drop-nil : (m : ℕ) → drop {A = A} m [] ≡ []
  drop-nil zero = refl
  drop-nil (suc m) = refl

  drop-drop : (m n : ℕ) (xs : List A) → drop m (drop n xs) ≡ drop (n + m) xs
  drop-drop m zero xs = ap (λ j. drop j xs) (omega arith)
  drop-drop m (suc n) [] = drop-nil m ∙ sym (drop-nil (suc n + m))
  drop-drop m (suc n) (x ∷ xs) =
      let both : suc n + m ≡ suc (n + m) = omega arith in rw both (drop-drop m n xs)

  abbrev pub concat : List (List A) → List A
  concat [] = []
  concat (xs ∷ xss) = xs ++ concat xss

  concat-chunks_from :
      (left i size : ℕ) (funcs : List A)
      → concat (chunks_from left i size funcs) ≡ drop (i * size) funcs
  unfolding chunks_from
  concat-chunks_from zero i size funcs = append-nil (drop (i * size) funcs)
  concat-chunks_from (suc left) i size funcs =
      let step : (i + 1) * size ≡ i * size + ((i + 1) * size - i * size) = grind arith in
      rw (concat-chunks_from left (i + 1) size funcs) (
        ap (λ j. take ((i + 1) * size - i * size) (drop (i * size) funcs) ++ drop j funcs) step
        ∙ rw (← drop-drop ((i + 1) * size - i * size) (i * size) funcs)
            (take-append-drop ((i + 1) * size - i * size) (drop (i * size) funcs)))

  length-chunks_from :
      (left i size : ℕ) (funcs : List A) → length (chunks_from left i size funcs) ≡ left + 1
  unfolding chunks_from
  length-chunks_from zero i size funcs = refl
  length-chunks_from (suc left) i size funcs =
      omega (arith, length-chunks_from left (i + 1) size funcs)

  -- The share of a thread, where `i + left + 1` threads share `size` each and `spare` more.
  chunks_from_shares :
      (left i size spare : ℕ) (funcs : List A)
      → length funcs ≡ (i + left + 1) * size + spare
      → spare ≤ 15
      → All (λ c. (size ≤ length c) × (length c ≤ size + 15)) (chunks_from left i size funcs)
  unfolding chunks_from
  chunks_from_shares zero i size spare funcs h few =
      let whole : (i + 0 + 1) * size ≡ i * size + size = grind arith in
      let rest = length-drop (i * size) funcs in
      ((omega (arith, rest, whole, h), omega (arith, rest, whole, h)), tt)
  chunks_from_shares (suc left) i size spare funcs h few =
      let step : (i + 1) * size ≡ i * size + size = grind arith in
      let next : i + 1 + left + 1 ≡ i + suc left + 1 = omega arith in
      let room : (i + suc left + 1) * size ≡ i * size + size + (left + 1) * size = grind arith in
      let taken = length-take ((i + 1) * size - i * size) (drop (i * size) funcs) in
      let rest = length-drop (i * size) funcs in
      (
        (omega (arith, taken, rest, step, room, h), omega (arith, taken, rest, step, room, h)),
        chunks_from_shares left (i + 1) size spare funcs (h ∙ ap (λ t. t * size + spare) (sym next))
            few,
      )

  -- The sixteen vectors hold all the functions, in order and without repetition, and each has a
  -- sixteenth of them, rounded down, to fifteen more.
  pub thread_chunks_cover :
      (funcs : List A)
      → (length (thread_chunks funcs) ≡ 16)
        × (concat (thread_chunks funcs) ≡ funcs)
        × All
            (λ c. (length funcs / 16 ≤ length c) × (length c ≤ length funcs / 16 + 15))
            (thread_chunks funcs)
  unfolding thread_chunks
  thread_chunks_cover funcs = (
    length-chunks_from 15 0 (length funcs / 16) funcs,
    concat-chunks_from 15 0 (length funcs / 16) funcs
        ∙ (let none_yet : 0 * (length funcs / 16) ≡ 0 = omega arith in rw none_yet),
    chunks_from_shares 15 0 (length funcs / 16) (length funcs % 16) funcs (omega arith)
        (omega arith),
  )
