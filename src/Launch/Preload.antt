-- ===== src/Launch/Preload.antt =====
-- The target process keeps the library in its environment.
use ocolos_public.Prelude.{
  ◌≡◌, refl, ap, ◌||◌, Bool, true, false, inl, inr, Bool-cases, List, [], ◌∷◌, Option, Bytes, codes,
  str_eq, str_eq_iff, length, length-append, done, some, ◌≢◌, All, Safe, Safe-map, arith,
}
use ocolos_public.Config.{Env, ocolos_env, last_is}
use ocolos_public.Config.Settings.{Line, IsLine, file_lines, last_setting}
use ocolos_public.Config.Paths.{HasPaths, IsComplete, ocolos_env-HasPaths}
use ocolos_public.Launch.{
  names_preload, put_preload, preload_entry, server_environ, ld_preload_path_macro, has_entry,
  delete_preload,
}

-- putenv leaves the entry in the environment.
has_entry-put_preload :
    (entry : Bytes) (envp : List Bytes) → has_entry entry (put_preload entry envp) ≡ true
unfolding has_entry put_preload
has_entry-put_preload entry [] = rw ((str_eq_iff entry entry).1 refl) refl
has_entry-put_preload entry (e ∷ envp) = elim (Bool-cases (names_preload e)) [
  | inl named ↦ rw (named, (str_eq_iff entry entry).1 refl) refl
  | inr other ↦ rw (other, has_entry-put_preload entry envp) (or_true (str_eq e entry))
]
  where
    or_true : (c : Bool) → (c || true) ≡ true
    or_true true = refl
    or_true false = refl

-- It brings in no other entry.
put_preload_others :
    (entry other : Bytes) (envp : List Bytes)
    → str_eq entry other ≡ false
    → has_entry other envp ≡ false
    → has_entry other (put_preload entry envp) ≡ false
unfolding has_entry put_preload
put_preload_others entry other [] differs none = rw differs refl
put_preload_others entry other (e ∷ envp) differs none =
    let here : str_eq e other ≡ false = ground arith in
    let rest : has_entry other envp ≡ false = ground arith in
    elim (Bool-cases (names_preload e)) [
      | inl named ↦ rw (named, differs) rest
      | inr unnamed ↦ rw (unnamed, here) (put_preload_others entry other envp differs rest)
    ]

some_lib : (lib : Bytes) → last_is b'/' lib ≡ done true → length lib ≡ 0 → ⊥
unfolding last_is
some_lib [] ends e = cc
some_lib (c ∷ lib) ends e = omega arith

-- With the path of a directory in front, the entry is not the one that the library looks for.
preload_entry_differs :
    (e : Env) → HasPaths e → str_eq (preload_entry e) ld_preload_path_macro ≡ false
preload_entry_differs e h = elim (Bool-cases (str_eq (preload_entry e) ld_preload_path_macro)) [
  | inl same ↦ absurd (too_long ((str_eq_iff _ _).0 same))
  | inr differs ↦ differs
]
  where
    too_long : preload_entry e ≡ ld_preload_path_macro → ⊥
    too_long same = some_lib e.lib_path h.lib_ends (
        omega (
          arith,
          ap length same,
          ap length h.preload_is,
          length-append {0} e.lib_path (codes "replace_function.so"),
        ))

-- Of a file of settings, comments and empty lines that names the commands, tmp_data_dir and lib,
-- with the six programs named there or found by `which`, and an OCOLOS_PATH that is not empty, the
-- constructor of ocolos_env comes to its end, and then the library that the tracer preloads into
-- the target process does not take itself out of the environment: before_main leaves the
-- environment that create_target_server_process made as it is, and the entry of the library is in
-- it, so that every program that the target starts loads the library too. The tracer's own
-- environment must not hold LD_PRELOAD=replace_function.so.
pub delete_preload-server_environ :
    (which : Bytes → Option (Option Bytes)) (dir : Bytes) (ls : List Line) (envp : List Bytes)
    (unset : Bool)
    → dir ≢ []
    → All IsLine ls
    → IsComplete which (λ name. last_setting name ls)
    → has_entry ld_preload_path_macro envp ≡ false
    → Safe ⊥
        (λ e.
          (delete_preload unset (server_environ e envp) ≡ done (server_environ e envp))
          × (has_entry (preload_entry e) (server_environ e envp) ≡ true))
        (ocolos_env which (some dir) (some (file_lines ls)))
unfolding delete_preload server_environ
delete_preload-server_environ which dir ls envp unset ne lines has clean =
    Safe-map ⊥ HasPaths _ (ocolos_env which (some dir) (some (file_lines ls)))
      (ocolos_env-HasPaths which dir ls ne lines has)
      (λ e h.
        let none =
          put_preload_others (preload_entry e) ld_preload_path_macro envp
            (preload_entry_differs e h) clean in
        (rw none refl, has_entry-put_preload (preload_entry e) envp))
