-- ===== src/Config/Commands.antt =====
-- get_cmds: where the commands, the target binary and the names for the database come from.
use ocolos_public.Prelude.{
  ◌≡◌, refl, ap, sym, ◌∙◌, ◌⊎◌, inl, inr, true, ◌&&◌, List, [], ◌∷◌, ◌++◌, Option, none, some, ltb,
  Bytes, codes, str_eq, str_eq_iff, length, take, drop, take-append-drop, ◌-◌, Bool-cases, Outcome,
  done, exited, undefined, ◌>>=◌, Holds, Holds-bind, Holds-map, Safe, arith,
}
use ocolos_public.Config.Complete.{CanRun, get_cmds-returns, Holds-Safe}
use ocolos_public.Utils.{split_line}
use ocolos_public.Config.{
  Configs, find_config, chomp, or_exit, first_word, Cmds, read_option, read_args, get_cmds,
}

-- The argument is the option with the value behind it.
abbrev pub IsValue : Bytes → Bytes → Bytes → Type 0
IsValue option value arg = (rest : Bytes) × (arg ≡ option ++ rest) × (chomp rest ≡ done value)

-- One of the arguments is.
abbrev pub Given : Bytes → Bytes → List Bytes → Type 0
Given option value [] = ⊥
Given option value (arg ∷ args) = IsValue option value arg ⊎ Given option value args

abbrev Source : (Bytes → Type 0) → Option Bytes → Option Bytes → Type 0
Source P old new = (v : Bytes) → new ≡ some v → (old ≡ some v) ⊎ P v

read_option-Source :
    (option arg : Bytes) (old : Option Bytes)
    → Holds (Source (λ v. IsValue option v arg) old) (read_option option arg old)
unfolding read_option
read_option-Source option arg old =
    elim (Bool-cases
      (ltb (length option - 1) (length arg) && str_eq (take (length option) arg) option)) [
        | inl on ↦ rw on (found (ground arith) (chomp (drop (length option) arg)) refl)
        | inr off ↦ rw off (λ v e. inl e)
      ]
  where
    found :
        str_eq (take (length option) arg) option ≡ true
        → (m : Outcome Bytes) → chomp (drop (length option) arg) ≡ m
        → Holds (Source (λ v. IsValue option v arg) old) (m >>= λ v. done (some v))
    found same (done w) e = λ v is.
        let front : take (length option) arg ≡ option =
          (str_eq_iff (take (length option) arg) option).0 same in
        let whole =
          sym (take-append-drop (length option) arg)
          ∙ ap (λ x. x ++ drop (length option) arg) front in
        let value : w ≡ v = cc in inr (drop (length option) arg, whole, e ∙ ap done value)
    found same exited e = tt
    found same undefined e = tt

read_args-Source :
    (db user : Option Bytes) (args : List Bytes)
    → Holds
        (λ (db', user').
          Source (λ v. Given (codes "--mysql-db=") v args) db db'
          × Source (λ v. Given (codes "--mysql-user=") v args) user user')
        (read_args db user args)
unfolding read_args
read_args-Source db user [] = ((λ v e. inl e), λ v e. inl e)
read_args-Source db user (arg ∷ args) =
    Holds-bind _ _ (read_option (codes "--mysql-db=") arg db) _
      (read_option-Source (codes "--mysql-db=") arg db)
      (λ db₁ d.
        Holds-bind _ _ (read_option (codes "--mysql-user=") arg user) _
          (read_option-Source (codes "--mysql-user=") arg user)
          (λ user₁ u.
            Holds-map _ _ (read_args db₁ user₁ args) (read_args-Source db₁ user₁ args)
              (λ (db', user') (ds, us). (
                (λ v e. through db db₁ db' (codes "--mysql-db=") d ds v e),
                λ v e. through user user₁ user' (codes "--mysql-user=") u us v e,
              ))))
  where
    through :
        (a b c : Option Bytes) (option : Bytes)
        → Source (λ v. IsValue option v arg) a b
        → Source (λ v. Given option v args) b c
        → Source (λ v. Given option v (arg ∷ args)) a c
    through a b c option one more v e = elim (more v e) [
      | inr h ↦ inr (inr h)
      | inl h ↦ elim (one v h) [ inl old ↦ inl old | inr new ↦ inr (inl new) ]
    ]

or_exit-Holds : (o : Option Bytes) → Holds (λ a. o ≡ some a) (or_exit o)
or_exit-Holds none = tt
or_exit-Holds (some a) = refl

first_word-Holds :
    (ws : List Bytes) → Holds (λ w. (more : List Bytes) × (ws ≡ w ∷ more)) (first_word ws)
first_word-Holds [] = tt
first_word-Holds (w ∷ ws) = (ws, refl)

-- Where the fields come from.
pub record IsGiven (configs : Configs) (c : Cmds) : Type 0 where
  pub server : find_config (codes "server_cmd") configs ≡ some c.run_server_cmd
  pub init : find_config (codes "init_benchmark_cmd") configs ≡ some c.init_benchmark_cmd
  pub run : find_config (codes "run_benchmark_cmd") configs ≡ some c.run_benchmark_cmd
  pub target : (more : List Bytes) × (split_line c.run_server_cmd ≡ c.target_binary_path ∷ more)
  pub db : Given (codes "--mysql-db=") c.db_name (split_line c.run_benchmark_cmd)
  pub user : Given (codes "--mysql-user=") c.db_user_name (split_line c.run_benchmark_cmd)

get_cmds-Holds : (configs : Configs) → Holds (IsGiven configs) (get_cmds configs)
unfolding get_cmds
get_cmds-Holds configs =
    Holds-bind _ _ (or_exit (find_config (codes "server_cmd") configs)) _ (or_exit-Holds _)
      (λ server s.
        Holds-bind _ _ (or_exit (find_config (codes "init_benchmark_cmd") configs)) _
          (or_exit-Holds _)
          (λ init i.
            Holds-bind _ _ (or_exit (find_config (codes "run_benchmark_cmd") configs)) _
              (or_exit-Holds _)
              (λ run r.
                Holds-bind _ _ (first_word (split_line server)) _ (first_word-Holds _) (λ target t.
                  Holds-bind _ _ (read_args none none (split_line run)) _
                    (read_args-Source none none (split_line run))
                    (λ (db, user) (ds, us).
                      Holds-bind _ _ (or_exit db) _ (or_exit-Holds db) (λ name n.
                        Holds-bind _ _ (or_exit user) _ (or_exit-Holds user) (λ user_name u.
                          record {
                            server = s;
                            init = i;
                            run = r;
                            target = t;
                            db = given (ds name n);
                            user = given (us user_name u);
                          })))))))
  where
    given : {P : Type 0} {v : Bytes} → (none ≡ some v) ⊎ P → P
    given (inl e) = cc
    given (inr h) = h

-- If the settings name the three commands, the server's has a word, and the benchmark's names the
-- two options, each with a value wherever an argument is one of them, then get_cmds comes to its
-- end: the three commands are those of the configuration, the target binary is the first word of
-- the server's, and the names of the database and of its user each stand in an argument of the
-- benchmark's command, behind --mysql-db= and --mysql-user=.
pub get_cmds-IsGiven :
    (configs : Configs)
    → CanRun (λ name. find_config name configs)
    → Safe ⊥ (IsGiven configs) (get_cmds configs)
get_cmds-IsGiven configs can =
    Holds-Safe (IsGiven configs) (get_cmds configs) (get_cmds-Holds configs)
      (get_cmds-returns configs can)
