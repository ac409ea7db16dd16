-- ===== src/Accelerator/Arguments.antt =====
-- convert_path: which arrays are long enough, and what they then hold.
use ocolos_public.Prelude.{
  ℕ, ◌+◌, ◌*◌, ◌^◌, ◌≤◌, ◌<◌, ◌≡◌, refl, inl, inr, Bool, true, false, leb, Bool-cases, List, [],
  ◌∷◌, ◌++◌, none, some, if◌then◌else◌, Bytes, codes, length, length-append, map, done, undefined,
  ◌>>=◌, arith,
}
use ocolos_public.Utils.{to_string, set_pointer, set_words}
use ocolos_public.Utils.Arguments.{set_words_fit}
use ocolos_public.Handshake.Messages.{to_string-length}
use ocolos_public.Accelerator.{perf_data_path, print_data_path, perf_words, set_args, convert_path}

-- A string in memory.
abbrev pub with_nul : Bytes → Bytes
with_nul w = w ++ (0 ∷ [])

-- Up to a time of 63 bits the path has at most 57 chars.
print_data_path-done :
    (time : ℕ) → time < 2 ^ 63 → print_data_path time ≡ done (perf_data_path time)
unfolding print_data_path perf_data_path
print_data_path-done time h =
    let fits : leb (length (perf_data_path time) + 1) 64 ≡ true =
      ground (arith, to_string-length time h, length-append {0} (to_string time) (codes ".data")) in
    rw fits refl

set_words_short :
    (allocated i : ℕ) (ws : List Bytes)
    → allocated < 8 * (i + length ws)
    → 8 * i ≤ allocated
    → set_words allocated i ws ≡ undefined
unfolding set_words set_pointer
set_words_short allocated i [] short room = absurd (omega arith)
set_words_short allocated i (w ∷ ws) short room = elim (Bool-cases (leb (8 * i + 8) allocated)) [
  | inl fits ↦
      let rest = set_words_short allocated (i + 1) ws (omega arith) (ground arith) in
      rw (fits, rest) refl
  | inr out ↦ rw out refl
]

-- The array must hold the words and the NULL.
set_args-done :
    (allocated : ℕ) (ws : List Bytes)
    → 8 * (length ws + 1) ≤ allocated
    → set_args allocated ws ≡ done (map with_nul ws)
unfolding set_args set_pointer
set_args-done allocated ws room =
    let last : leb (8 * length ws + 8) allocated ≡ true = ground arith in
    rw (set_words_fit allocated 0 ws (omega arith), last) refl

set_args-undefined :
    (allocated : ℕ) (ws : List Bytes)
    → allocated < 8 * (length ws + 1)
    → set_args allocated ws ≡ undefined
unfolding set_args set_pointer
set_args-undefined allocated ws short = elim (Bool-cases (leb (8 * length ws) allocated)) [
  | inl words ↦
      let last : leb (8 * length ws + 8) allocated ≡ false = ground arith in
      rw (set_words_fit allocated 0 ws (ground arith), last) refl
  | inr words ↦ rw (set_words_short allocated 0 ws (ground arith) (omega arith)) refl
]

set_args_if :
    (allocated : ℕ) (ws : List Bytes)
    → set_args allocated ws
      ≡ (if leb (8 * (length ws + 1)) allocated then done (map with_nul ws) else undefined)
set_args_if allocated ws = elim (Bool-cases (leb (8 * (length ws + 1)) allocated)) [
  | inl room ↦ rw room (set_args-done allocated ws (ground arith))
  | inr short ↦ rw short (set_args-undefined allocated ws (ground arith))
]

bind_if :
    (c : Bool) (args : List Bytes)
    → ((if c then done args else undefined) >>= λ new. done (some new))
      ≡ (if c then done (some args) else undefined)
bind_if true args = refl
bind_if false args = refl

-- convert_path on a command with its arguments, and a time below 2^63. Into an array of the caller it
-- writes the nine words of perf, the command and its arguments, each with its NUL, and a NULL behind
-- them, if the array has room for nine pointers more than there are words and the NULL, and else it
-- writes outside the array. Without an array of the caller it makes one, never writes outside it, and
-- the caller gets nothing.
pub convert_path_if :
    (time allocated : ℕ) (name : Bytes) (argv : List Bytes)
    → time < 2 ^ 63
    → (convert_path time (some allocated) (name ∷ argv) ≡ (
        if leb (8 * (length argv + 11)) allocated
        then done (some (map with_nul (perf_words (perf_data_path time) ++ (name ∷ argv))))
        else undefined))
      × (convert_path time none (name ∷ argv) ≡ done none)
unfolding convert_path
convert_path_if time allocated name argv h =
    let words = perf_words (perf_data_path time) ++ (name ∷ argv) in
    let count : length words + 1 ≡ length argv + 11 = omega arith in
    let enough : leb (8 * (length words + 1)) (8 * (10 + length (name ∷ argv))) ≡ true =
      ground arith in
    (
      rw (print_data_path-done time h, set_args_if allocated words, count)
          (bind_if (leb (8 * (length argv + 11)) allocated) (map with_nul words)),
      rw (print_data_path-done time h, set_args_if (8 * (10 + length (name ∷ argv))) words, enough)
          refl,
    )
