-- ===== src/Accelerator/Environment.antt =====
-- convert_envp: the entries that it keeps, and that none of them ends in a NUL.
use ocolos_public.Prelude.{List, [], ◌∷◌, if◌then◌else◌, Bytes}
use ocolos_public.Accelerator.{is_preload}

-- The entries that do not start with LD_PRELOAD.
unfoldable pub kept_entries : List Bytes → List Bytes
kept_entries [] = []
kept_entries (entry ∷ envp) =
    if is_preload entry then kept_entries envp else entry ∷ kept_entries envp
