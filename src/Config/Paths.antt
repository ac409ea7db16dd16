-- ===== src/Config/Paths.antt =====
-- The two directories and the commands that the configuration names.
use ocolos_public.Prelude.{
  ◌++◌, ◌≡◌, refl, true, List, [], ◌∷◌, Option, Bytes, codes, take, Outcome, done, exited,
  undefined, ◌>>=◌, Safe, Holds, Holds-bind, Safe-bind, sym, subst, All, ◌≢◌, some,
}
use ocolos_public.Config.{
  Configs, last_is, with_slash, get_binary_path, get_dir_path, Env, ocolos_env, library_files,
  read_config, get_cmds, find_config,
}
use ocolos_public.Config.Settings.{
  with_slash-ends, Line, IsLine, file_lines, last_setting, read_config-settings,
}
use ocolos_public.Config.Complete.{
  CanRun, HasDir, Found, get_cmds-returns, get_dir_path-returns, get_binary_path-returns,
  Holds-Safe,
}

with_slash-Holds : (s : Bytes) → Holds (λ d. last_is b'/' d ≡ done true) (with_slash s)
with_slash-Holds [] = unfold with_slash in tt
with_slash-Holds (c ∷ s) = holds (with_slash (c ∷ s)) (with_slash-ends (c ∷ s) (λ e. cc))
  where
    holds :
        (m : Outcome Bytes)
        → Safe ⊥ (λ d. last_is b'/' d ≡ done true) m
        → Holds (λ d. last_is b'/' d ≡ done true) m
    holds (done d) h = h
    holds exited h = tt
    holds undefined h = tt

-- Whatever the outcome, the property that is known of every value.
Holds-any : {A : Type 0} (P : A → Type 0) (m : Outcome A) → ((a : A) → P a) → Holds P m
Holds-any P (done a) h = h a
Holds-any P exited h = tt
Holds-any P undefined h = tt

abbrev EndsInSlash : Bytes → Type 0
EndsInSlash s = last_is b'/' s ≡ done true

get_dir_path-ends :
    (which : Bytes → Option (Option Bytes)) (configs : Configs)
    → Holds (λ (tmp, lib). EndsInSlash tmp × EndsInSlash lib) (get_dir_path which configs)
unfolding get_dir_path
get_dir_path-ends which configs =
    Holds-bind (λ _. Unit) _ (get_binary_path which configs (codes "tmp_data_dir")) _
      (Holds-any _ _ (λ _. tt))
      (λ tmp _. Holds-bind EndsInSlash _ (with_slash tmp) _ (with_slash-Holds tmp) (λ tmp_path t.
        Holds-bind (λ _. Unit) _ (get_binary_path which configs (codes "lib")) _
          (Holds-any _ _ (λ _. tt))
          (λ lib _.
            Holds-bind EndsInSlash _ (with_slash lib) _ (with_slash-Holds lib)
              (λ lib_path l. (t, l)))))

-- What the constructor of ocolos_env promises of its paths.
pub record HasPaths (e : Env) : Type 0 where
  pub tmp_ends : last_is b'/' e.tmp_data_path ≡ done true
  pub lib_ends : last_is b'/' e.lib_path ≡ done true
  pub preload_is : e.ld_preload_path ≡ e.lib_path ++ codes "replace_function.so"
  pub same_files :
      take 4 (library_files e.tmp_data_path)
      ≡ e.bolted_function_bin ∷ e.call_sites_bin ∷ e.v_table_bin ∷ e.unmoved_func_bin ∷ []

ocolos_env-Holds :
    (which : Bytes → Option (Option Bytes)) (dir : Option Bytes) (config : Option (List Bytes))
    → Holds HasPaths (ocolos_env which dir config)
unfolding ocolos_env library_files
ocolos_env-Holds which dir config =
    Holds-bind (λ _. Unit) _ (read_config dir config) _ (Holds-any _ _ (λ _. tt))
      (λ (d, configs) _.
        Holds-bind (λ (tmp, lib). EndsInSlash tmp × EndsInSlash lib) _ (get_dir_path which configs)
          _ (get_dir_path-ends which configs)
          (λ (tmp, lib) (t, l).
            Holds-bind (λ _. Unit) _ (get_cmds configs) _ (Holds-any _ _ (λ _. tt))
              (λ cmds _. after which configs (codes "perf") _ (λ perf.
                after which configs (codes "nm") _ (λ nm.
                  after which configs (codes "objdump") _ (λ objdump.
                    after which configs (codes "llvm-bolt") _ (λ bolt.
                      after which configs (codes "perf2bolt") _ (λ perf2bolt.
                        after which configs (codes "mysql") _ (λ client. record {
                          tmp_ends = t;
                          lib_ends = l;
                          preload_is = refl;
                          same_files = refl;
                        })))))))))
  where
    after :
        (which : Bytes → Option (Option Bytes)) (configs : Configs) (name : Bytes)
        (f : Bytes → Outcome Env)
        → ((path : Bytes) → Holds HasPaths (f path))
        → Holds HasPaths (get_binary_path which configs name >>= f)
    after which configs name f h =
        Holds-bind (λ _. Unit) HasPaths (get_binary_path which configs name) _
          (Holds-any _ _ (λ _. tt)) (λ path _. h path)

-- The programs that the constructor looks for.
abbrev pub tools : List Bytes
tools =
    codes "perf"
    ∷ codes "nm"
    ∷ codes "objdump"
    ∷ codes "llvm-bolt"
    ∷ codes "perf2bolt"
    ∷ codes "mysql"
    ∷ []

-- What the constructor needs of the settings.
pub record IsComplete (which : Bytes → Option (Option Bytes)) (get : Bytes → Option Bytes)
    : Type 0 where
  pub can_run : CanRun get
  pub tmp_data_dir : HasDir get (codes "tmp_data_dir")
  pub lib : HasDir get (codes "lib")
  pub found : All (Found which get) tools

ocolos_env-returns :
    (which : Bytes → Option (Option Bytes)) (dir : Bytes) (ls : List Line)
    → dir ≢ []
    → All IsLine ls
    → IsComplete which (λ name. last_setting name ls)
    → Safe ⊥ (λ e. Unit) (ocolos_env which (some dir) (some (file_lines ls)))
unfolding ocolos_env
ocolos_env-returns which dir ls ne lines has =
    Safe-bind ⊥ _ _ (read_config (some dir) (some (file_lines ls))) _
      (read_config-settings dir ls ne lines)
      (λ (d, configs) (_, same).
        let same' : (λ name. last_setting name ls) ≡ (λ name. find_config name configs) =
          λ i name. sym (same name) i in
        let h : IsComplete which (λ name. find_config name configs) =
          subst (IsComplete which) same' has in
        Safe-bind ⊥ _ _ (get_dir_path which configs) _
          (get_dir_path-returns which configs h.tmp_data_dir h.lib)
          (λ dirs _.
            Safe-bind ⊥ _ _ (get_cmds configs) _ (get_cmds-returns configs h.can_run) (λ cmds _.
              next which configs (codes "perf") _ (h.found.0) (λ perf.
                next which configs (codes "nm") _ (h.found.1.0) (λ nm.
                  next which configs (codes "objdump") _ (h.found.1.1.0) (λ objdump.
                    next which configs (codes "llvm-bolt") _ (h.found.1.1.1.0) (λ bolt.
                      next which configs (codes "perf2bolt") _ (h.found.1.1.1.1.0) (λ perf2bolt.
                        next which configs (codes "mysql") _ (h.found.1.1.1.1.1.0)
                          (λ client. tt)))))))))
  where
    next :
        (which : Bytes → Option (Option Bytes)) (configs : Configs) (name : Bytes)
        (f : Bytes → Outcome Env)
        → Found which (λ n. find_config n configs) name
        → ((path : Bytes) → Safe ⊥ (λ e. Unit) (f path))
        → Safe ⊥ (λ e. Unit) (get_binary_path which configs name >>= f)
    next which configs name f found h =
        Safe-bind ⊥ (λ _. Unit) _ (get_binary_path which configs name) _
          (get_binary_path-returns which configs name found) (λ path _. h path)

-- Of a file of settings, comments and empty lines that names the commands, tmp_data_dir and lib,
-- with the six programs named there or found by `which`, and an OCOLOS_PATH that is not empty, the
-- constructor of ocolos_env comes to its end: the two directories end in a slash, the library to
-- preload is replace_function.so in the second, and the four files that the tracer writes are those
-- that the library opens once it has the tracer's tmp_data_path.
pub ocolos_env-HasPaths :
    (which : Bytes → Option (Option Bytes)) (dir : Bytes) (ls : List Line)
    → dir ≢ []
    → All IsLine ls
    → IsComplete which (λ name. last_setting name ls)
    → Safe ⊥ HasPaths (ocolos_env which (some dir) (some (file_lines ls)))
ocolos_env-HasPaths which dir ls ne lines has =
    Holds-Safe HasPaths (ocolos_env which (some dir) (some (file_lines ls)))
      (ocolos_env-Holds which (some dir) (some (file_lines ls)))
      (ocolos_env-returns which dir ls ne lines has)
