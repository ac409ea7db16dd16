-- ===== src/Tests/Accelerator.antt =====
-- build-accelerator's c_functions.c on small arrays.
use ocolos_public.Prelude.{
  ◌+◌, ◌*◌, ◌≡◌, refl, leb, if◌then◌else◌, List, [], ◌∷◌, ◌++◌, none, some, Bytes, codes, length,
  map, done, undefined, arith, str_eq,
}
use ocolos_public.Accelerator.{perf_data_path, perf_words, convert_path, is_preload}
use ocolos_public.Accelerator.Arguments.{with_nul, convert_path_if}
use ocolos_public.Accelerator.Environment.{kept_entries}

abbrev clang_arguments : List Bytes
clang_arguments = codes "-c" ∷ codes "a.c" ∷ []

convert_path_if_example :
    (convert_path 5 (some 104) (codes "clang" ∷ clang_arguments) ≡ (
      if leb (8 * (length clang_arguments + 11)) 104
      then done
          (some (map with_nul (perf_words (perf_data_path 5) ++ (codes "clang" ∷ clang_arguments))))
      else undefined))
    × (convert_path 5 none (codes "clang" ∷ clang_arguments) ≡ done none)
convert_path_if_example = convert_path_if 5 104 (codes "clang") clang_arguments (omega arith)

abbrev two_entries : List Bytes
two_entries = codes "LD_PRELOAD=x" ∷ codes "A=1" ∷ []

one_entry : kept_entries two_entries ≡ codes "A=1" ∷ []
unfolding kept_entries is_preload str_eq
one_entry = refl
