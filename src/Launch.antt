-- ===== src/Launch.antt =====
-- The environment of the target process: create_target_server_process of src/infrastructure.cpp puts
-- the library into it, and before_main of src/replace_function.cpp is to take it out again. An entry
-- is its chars before the NUL.
pub mod Preload
use ocolos_public.Prelude.{
  Bool, true, false, ◌||◌, not, List, [], ◌∷◌, ◌++◌, if◌then◌else◌, Bytes, codes, str_eq, take,
  Outcome, done, exited,
}
use ocolos_public.Config.{Env}

-- The entry has the name LD_PRELOAD.
unfoldable pub names_preload : Bytes → Bool
names_preload entry = str_eq (take 11 entry) (codes "LD_PRELOAD=")

-- `putenv`, of an entry for LD_PRELOAD: it replaces the first entry with that name, or is added.
unfoldable pub put_preload : Bytes → List Bytes → List Bytes
unfolding names_preload
put_preload entry [] = entry ∷ []
put_preload entry (e ∷ envp) = if names_preload e then entry ∷ envp else e ∷ put_preload entry envp

-- `"LD_PRELOAD=" + ocolos_environ->ld_preload_path`.
abbrev pub preload_entry : Env → Bytes
preload_entry e = codes "LD_PRELOAD=" ++ e.ld_preload_path

-- What execve gets as environment in create_target_server_process.
unfoldable pub server_environ : Env → List Bytes → List Bytes
unfolding put_preload
server_environ e envp = put_preload (preload_entry e) envp

-- LD_PRELOAD_PATH of src/replace_function.hpp.
abbrev pub ld_preload_path_macro : Bytes
ld_preload_path_macro = codes "LD_PRELOAD=replace_function.so"

-- `unsetenv("LD_PRELOAD")`.
unfoldable pub unset_preload : List Bytes → List Bytes
unfolding names_preload
unset_preload [] = []
unset_preload (e ∷ envp) =
    let rest = unset_preload envp in if names_preload e then rest else e ∷ rest

-- Whether the loop finds the entry.
unfoldable pub has_entry : Bytes → List Bytes → Bool
has_entry entry [] = false
has_entry entry (e ∷ envp) = str_eq e entry || has_entry entry envp

-- The loop of before_main over `environ`; `unset` says whether unsetenv succeeds.
unfoldable pub delete_preload : Bool → List Bytes → Outcome (List Bytes)
unfolding has_entry unset_preload
delete_preload unset envp =
    if has_entry ld_preload_path_macro envp
    then (if unset then done (unset_preload envp) else exited)
    else done envp
