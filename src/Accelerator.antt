-- ===== src/Accelerator.antt =====
-- build-accelerator/rca-clang-new/src/c/c_functions.c (build-accelerator/rca-clang has a copy): the
-- arguments and the environment with which a call of clang is run under perf. A string is its chars
-- before the NUL; an array of pointers has the bytes that were allocated for it.
pub mod Arguments
pub mod Environment
use ocolos_public.Prelude.{
  ℕ, ◌+◌, ◌*◌, Bool, not, List, [], ◌∷◌, ◌++◌, Option, none, some, leb, if◌then◌else◌, Bytes, codes,
  str_eq, length, take, Outcome, done, undefined, ◌>>=◌, ◌>>◌,
}
use ocolos_public.Utils.{to_string, set_pointer, set_words}

-- `sprintf(args[7], "...%ld.data", time_in_micros)`, into 64 bytes.
unfoldable pub perf_data_path : ℕ → Bytes
perf_data_path time_in_micros =
    codes "/home.local/zyuxuan/tmp_rust/perf" ++ (to_string time_in_micros ++ codes ".data")

unfoldable pub print_data_path : ℕ → Outcome Bytes
unfolding perf_data_path
print_data_path time_in_micros =
    let path = perf_data_path time_in_micros in
    if leb (length path + 1) 64 then done path else undefined

-- The strings args[0] to args[8].
abbrev pub perf_words : Bytes → List Bytes
perf_words path =
    codes "/usr/bin/perf"
    ∷ codes "record"
    ∷ codes "-e"
    ∷ codes "cycles:u"
    ∷ codes "-j"
    ∷ codes "any,u"
    ∷ codes "-o"
    ∷ path
    ∷ codes "--"
    ∷ []

-- The pointers are set one by one, each to a string with its NUL, and the last one to NULL.
unfoldable pub set_args : ℕ → List Bytes → Outcome (List Bytes)
unfolding set_words set_pointer
set_args allocated words = do
  args ← set_words allocated 0 words
  set_pointer allocated (length words)
  done args

-- convert_path: what the caller's array leads to afterwards. `args` is NULL (`none`), and then a new
-- array is made that the caller does not get, or has so many bytes. Of an empty argv the length of
-- its NULL is taken.
unfoldable pub convert_path : ℕ → Option ℕ → List Bytes → Outcome (Option (List Bytes))
unfolding print_data_path set_args
convert_path time_in_micros args [] = undefined
convert_path time_in_micros args (name ∷ argv) = print_data_path time_in_micros >>= λ path.
    elim args [
      | none ↦
          let arg_count = 10 + length (name ∷ argv) in
          set_args (8 * arg_count) (perf_words path ++ (name ∷ argv)) >>= λ new. done none
      | some allocated ↦
          set_args allocated (perf_words path ++ (name ∷ argv)) >>= λ new. done (some new)
    ]

-- `strncmp(envp[i], "LD_PRELOAD", 10)` gives 0.
unfoldable pub is_preload : Bytes → Bool
is_preload entry = str_eq (take 10 entry) (codes "LD_PRELOAD")

-- The loop of convert_envp from the pointer `j` on. strncpy copies the chars of the entry into as many
-- bytes, and no NUL.
unfoldable pub copy_entries : ℕ → ℕ → List Bytes → Outcome (List Bytes)
unfolding is_preload set_pointer
copy_entries allocated j [] = set_pointer allocated j >>= λ _. done []
copy_entries allocated j (entry ∷ envp) =
    let kept =
      (set_pointer allocated j >>= λ _.
      copy_entries allocated (j + 1) envp >>= λ rest. done (entry ∷ rest)) in
    let left_out = copy_entries allocated j envp in
    if not (is_preload entry) then kept else left_out

-- The bytes of the new strings, as they were allocated.
unfoldable pub convert_envp : ℕ → List Bytes → Outcome (List Bytes)
unfolding copy_entries
convert_envp allocated envp = copy_entries allocated 0 envp
