-- ===== src/Tracee/Files.antt =====
-- src/replace_function.cpp: the four files that the library inserts, each with its function, and
-- insert_machine_code, which inserts them all. A file is `none` where fopen gave NULL.
use ocolos_public.Prelude.{
  ℕ, ◌+◌, Bool, true, false, List, [], ◌∷◌, Option, none, some, Bytes, length, Outcome, done,
  exited, undefined, ◌>>=◌,
}
use ocolos_public.Tracee.{read_exec, Kernel, or_exit, open_text_page, open_bolted_page, insert_loop}

module _ (k : Kernel) (junk : ℕ → ℕ) where
  open k use {Space, mprotect}

  -- Every round reads 17 bytes at least, so the length of the file is fuel enough.
  unfoldable pub insert_code_to_orig_text_sec : ℕ → Bytes → Space → Outcome Space
  unfolding insert_loop open_text_page
  insert_code_to_orig_text_sec base_n file s =
      insert_loop k (open_text_page k) junk base_n (length file + 1) file [] s >>= λ (pages, s').
      done s'

  -- `for (auto itr : allocated_pages)`, at the end of insert_bolted_function and of
  -- insert_machine_code.
  unfoldable pub seal_pages : List ℕ → Space → Outcome Space
  seal_pages [] s = done s
  seal_pages (page ∷ pages) s = or_exit (mprotect s page read_exec) >>= seal_pages pages

  unfoldable pub insert_bolted_function : ℕ → Option Bytes → Space → Outcome Space
  unfolding insert_loop open_bolted_page seal_pages
  insert_bolted_function base_n none s = exited
  insert_bolted_function base_n (some file) s = do
    (pages, s') ← insert_loop k (open_bolted_page k) junk base_n (length file + 1) file [] s
    seal_pages pages s'

  unfoldable pub insert_call_site : ℕ → Option Bytes → Space → Outcome Space
  unfolding insert_code_to_orig_text_sec
  insert_call_site base_n none s = exited
  insert_call_site base_n (some file) s = insert_code_to_orig_text_sec base_n file s

  unfoldable pub insert_v_table : ℕ → Option Bytes → Space → Outcome Space
  unfolding insert_code_to_orig_text_sec
  insert_v_table base_n none s = exited
  insert_v_table base_n (some file) s = insert_code_to_orig_text_sec base_n file s

  unfoldable pub insert_unmoved_func : ℕ → Option Bytes → Space → Outcome Space
  unfolding insert_code_to_orig_text_sec
  insert_unmoved_func base_n none s = exited
  insert_unmoved_func base_n (some file) s = insert_code_to_orig_text_sec base_n file s

  -- `if (pFile != NULL) { ...; fclose(pFile); }`.
  abbrev unless_null :
      (ℕ → Option Bytes → Space → Outcome Space) → Option Bytes → Space → Outcome Space
  unless_null insert none s = done s
  unless_null insert (some file) s = insert 0 (some file) s

  -- `recorded`: the log could be opened; if not, fclose gets NULL. `base_n` is 0. The pages of the
  -- last loop are those of a set that nothing was put into.
  unfoldable pub insert_machine_code :
      Bool → Option Bytes → Option Bytes → Option Bytes → Option Bytes → Space → Outcome Space
  unfolding insert_bolted_function insert_call_site insert_v_table insert_unmoved_func seal_pages
  insert_machine_code false bolted calls v_table unmoved s = undefined
  insert_machine_code true bolted calls v_table unmoved s = do
    s₁ ← unless_null insert_bolted_function bolted s
    s₂ ← unless_null insert_call_site calls s₁
    s₃ ← unless_null insert_v_table v_table s₂
    s₄ ← unless_null insert_unmoved_func unmoved s₃
    seal_pages [] s₄
