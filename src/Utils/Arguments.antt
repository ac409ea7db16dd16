-- ===== src/Utils/Arguments.antt =====
-- split_str_2_char_array, whose array has no room for its last pointer.
use ocolos_public.Prelude.{
  ℕ, ◌+◌, ◌*◌, ◌≤◌, ◌≡◌, refl, List, [], ◌∷◌, ◌++◌, Bytes, length, map, done, undefined, true,
  false, leb, arith,
}
use ocolos_public.Utils.{split_line, set_words, split_str_2_char_array}

-- The words all fit.
pub set_words_fit :
    (allocated i : ℕ) (ws : List Bytes)
    → 8 * (i + length ws) ≤ allocated
    → set_words allocated i ws ≡ done (map (λ w. w ++ (0 ∷ [])) ws)
unfolding set_words
set_words_fit allocated i [] h = refl
set_words_fit allocated i (w ∷ ws) h =
    let room : leb (8 * i + 8) allocated ≡ true = ground arith in
    rw (room, set_words_fit allocated (i + 1) ws (omega arith)) refl

-- For every string split_str_2_char_array writes outside the array that it has allocated: the NULL
-- behind the pointers of the words has one byte of its eight.
pub split_str_2_char_array_undefined : (str : Bytes) → split_str_2_char_array str ≡ undefined
unfolding split_str_2_char_array
split_str_2_char_array_undefined str =
    let n = length (split_line str) in
    let outside : leb (8 * n + 8) (8 * n + 1) ≡ false = ground arith in
    rw (set_words_fit (8 * n + 1) 0 (split_line str) (omega arith), outside) refl
