-- ===== src/Config/Complete.antt =====
-- When the constructor of ocolos_env comes to its end: no exit, and no read of a missing char.
use ocolos_public.Prelude.{
  ◌≡◌, ◌≢◌, ◌∙◌, refl, sym, ap, ◌⊎◌, inl, inr, Bool, true, false, ◌&&◌, List, [], ◌∷◌, ◌++◌, ◌-◌,
  ◌<◌, Option, none, some, ltb, if◌then◌else◌, Bytes, codes, str_eq, str_eq_iff, length,
  length-take, take, drop, take-append-drop, Bool-cases, All, Outcome, done, exited, undefined,
  ◌>>=◌, Safe, Holds, ℕ, Safe-bind, Safe-map, arith,
}
use mathlib.Core.List.{append-nil}
use ocolos_public.Utils.{split_line}
use ocolos_public.Config.{
  Configs, find_config, last_is, pop_back, chomp, or_exit, read_option, read_args, get_cmds,
  get_binary_path, get_dir_path, with_slash,
}
use ocolos_public.Config.Settings.{last_is_defined, with_slash-ends}

abbrev pub IsSome : Option Bytes → Type 0
IsSome o = (v : Bytes) × (o ≡ some v)

-- The argument starts with the option.
abbrev pub Starts : Bytes → Bytes → Type 0
Starts option arg = str_eq (take (length option) arg) option ≡ true

-- One of the arguments does.
abbrev pub Names : Bytes → List Bytes → Type 0
Names option [] = ⊥
Names option (arg ∷ args) = Starts option arg ⊎ Names option args

-- No argument is the option with no value.
abbrev pub NoBare : Bytes → List Bytes → Type 0
NoBare option = All (λ arg. str_eq arg option ≡ false)

chomp-returns : (s : Bytes) → s ≢ [] → Safe ⊥ (λ t. Unit) (chomp s)
unfolding chomp
chomp-returns s ne = go (last_is 10 s) refl
  where
    go :
        (o : Outcome Bool)
        → last_is 10 s ≡ o
        → Safe ⊥ (λ t. Unit) (o >>= λ newline. done (if newline then pop_back s else s))
    go (done b) e = tt
    go exited e = absurd ((last_is_defined 10 s ne).1 e)
    go undefined e = absurd ((last_is_defined 10 s ne).0 e)

Starts-long :
    (option arg : Bytes)
    → 0 < length option
    → Starts option arg
    → ltb (length option - 1) (length arg) ≡ true
Starts-long option arg pos h =
    let same = ap length ((str_eq_iff (take (length option) arg) option).0 h) in
    ground (arith, same, length-take (length option) arg)

value_left :
    (option arg : Bytes)
    → str_eq arg option ≡ false
    → Starts option arg
    → drop (length option) arg ≢ []
value_left option arg bare h none_left =
    let front = (str_eq_iff (take (length option) arg) option).0 h in
    let whole = sym (take-append-drop (length option) arg) in
    let is : arg ≡ option =
      whole
      ∙ ap (◌++◌ (take (length option) arg)) none_left
      ∙ append-nil (take (length option) arg)
      ∙ front in
    let bare_one = (str_eq_iff arg option).1 is in cc

and_false : (b : Bool) → b && false ≡ false
and_false true = refl
and_false false = refl

-- The option is there if it was, or if the argument starts with it.
read_option-returns :
    (option arg : Bytes) (old : Option Bytes)
    → 0 < length option
    → str_eq arg option ≡ false
    → Safe ⊥ (λ new. IsSome old ⊎ Starts option arg → IsSome new) (read_option option arg old)
unfolding read_option
read_option-returns option arg old pos bare =
    elim (Bool-cases (str_eq (take (length option) arg) option)) [
      | inl on ↦
          rw (Starts-long option arg pos on, on)
            (Safe-bind ⊥ (λ t. Unit) _ (chomp (drop (length option) arg)) _
              (chomp-returns (drop (length option) arg) (value_left option arg bare on))
              (λ v _ _. (v, refl)))
      | inr off ↦ rw (off, and_false (ltb (length option - 1) (length arg))) before
    ]
  where
    before : IsSome old ⊎ (false ≡ true) → IsSome old
    before (inl h) = h
    before (inr on) = cc

read_args-returns :
    (db user : Option Bytes) (args : List Bytes)
    → NoBare (codes "--mysql-db=") args
    → NoBare (codes "--mysql-user=") args
    → Safe ⊥
        (λ (db', user').
          (IsSome db ⊎ Names (codes "--mysql-db=") args → IsSome db')
          × (IsSome user ⊎ Names (codes "--mysql-user=") args → IsSome user'))
        (read_args db user args)
unfolding read_args
read_args-returns db user [] d u = (only db, only user)
  where
    only : (o : Option Bytes) → IsSome o ⊎ ⊥ → IsSome o
    only o (inl h) = h
    only o (inr h) = absurd h
read_args-returns db user (arg ∷ args) (d, ds) (u, us) =
    Safe-bind ⊥ _ _ (read_option (codes "--mysql-db=") arg db) _
      (read_option-returns (codes "--mysql-db=") arg db (omega arith) d)
      (λ db₁ k.
        Safe-bind ⊥ _ _ (read_option (codes "--mysql-user=") arg user) _
          (read_option-returns (codes "--mysql-user=") arg user (omega arith) u)
          (λ user₁ l.
            Safe-map ⊥ _ _ (read_args db₁ user₁ args) (read_args-returns db₁ user₁ args ds us)
              (λ (db', user') (m, n). ((λ h. m (next k h)), λ h. n (next l h)))))
  where
    next : {P Q S N : Type 0} (k : P ⊎ S → Q) → P ⊎ (S ⊎ N) → Q ⊎ N
    next k (inl p) = inl (k (inl p))
    next k (inr (inl s)) = inl (k (inr s))
    next k (inr (inr n)) = inr n

-- What get_cmds needs of the settings: the three commands, a word in that of the server, and in
-- that of the benchmark the two options, each with a value wherever an argument is one of them.
pub record CanRun (get : Bytes → Option Bytes) : Type 0 where
  pub server : Bytes
  pub init : Bytes
  pub run : Bytes
  pub target : Bytes
  pub more : List Bytes
  pub has_server : get (codes "server_cmd") ≡ some server
  pub has_init : get (codes "init_benchmark_cmd") ≡ some init
  pub has_run : get (codes "run_benchmark_cmd") ≡ some run
  pub words : split_line server ≡ target ∷ more
  pub db : Names (codes "--mysql-db=") (split_line run)
  pub user : Names (codes "--mysql-user=") (split_line run)
  pub db_values : NoBare (codes "--mysql-db=") (split_line run)
  pub user_values : NoBare (codes "--mysql-user=") (split_line run)

or_exit-Safe : (o : Option Bytes) → IsSome o → Safe ⊥ (λ v. Unit) (or_exit o)
or_exit-Safe o (v, e) = rw e tt

pub get_cmds-returns :
    (configs : Configs)
    → CanRun (λ name. find_config name configs)
    → Safe ⊥ (λ c. Unit) (get_cmds configs)
unfolding get_cmds
get_cmds-returns configs can =
    rw (can.has_server, can.has_init, can.has_run, can.words)
      (Safe-bind ⊥ _ _ (read_args none none (split_line can.run)) _
        (read_args-returns none none (split_line can.run) can.db_values can.user_values)
        (λ (db, user) (d, u).
          Safe-bind ⊥ _ _ (or_exit db) _ (or_exit-Safe db (d (inr can.db))) (λ name _.
            Safe-bind ⊥ _ _ (or_exit user) _ (or_exit-Safe user (u (inr can.user)))
              (λ user_name _. tt))))

-- How get_binary_path finds a program: in the settings, or on the first line of what `which` prints.
abbrev pub Found : (Bytes → Option (Option Bytes)) → (Bytes → Option Bytes) → Bytes → Type 0
Found which get name =
    IsSome (get name) ⊎ ((line : Bytes) × (which name ≡ some (some line)) × (line ≢ []))

-- A setting wins.
get_binary_path-set :
    (which : Bytes → Option (Option Bytes)) (configs : Configs) (name : Bytes) {path : Bytes}
    → find_config name configs ≡ some path
    → get_binary_path which configs name ≡ done path
unfolding get_binary_path
get_binary_path-set which configs name e =
    ap
      (λ o. elim o [
        | some path ↦ done path
        | none ↦ elim (which name) [
          | none ↦ exited
          | some none ↦ exited
          | some (some path) ↦ chomp path
        ]
      ])
      e

pub get_binary_path-returns :
    (which : Bytes → Option (Option Bytes)) (configs : Configs) (name : Bytes)
    → Found which (λ n. find_config n configs) name
    → Safe ⊥ (λ path. Unit) (get_binary_path which configs name)
unfolding get_binary_path
get_binary_path-returns which configs name (inl (path, e)) =
    rw (get_binary_path-set which configs name e) tt
get_binary_path-returns which configs name (inr (line, e, ne)) = go (find_config name configs)
  where
    go :
        (o : Option Bytes)
        → Safe ⊥
            (λ path. Unit)
            (elim o [
              | some path ↦ done path
              | none ↦ elim (which name) [
                | none ↦ exited
                | some none ↦ exited
                | some (some path) ↦ chomp path
              ]
            ])
    go (some path) = tt
    go none = rw e (chomp-returns line ne)

-- A directory that the settings name.
abbrev pub HasDir : (Bytes → Option Bytes) → Bytes → Type 0
HasDir get name = (c : ℕ) × (s : Bytes) × (get name ≡ some (c ∷ s))

pub get_dir_path-returns :
    (which : Bytes → Option (Option Bytes)) (configs : Configs)
    → HasDir (λ n. find_config n configs) (codes "tmp_data_dir")
    → HasDir (λ n. find_config n configs) (codes "lib")
    → Safe ⊥ (λ dirs. Unit) (get_dir_path which configs)
unfolding get_dir_path
get_dir_path-returns which configs (c, s, tmp) (d, t, lib) =
    rw (get_binary_path-set which configs _ tmp, get_binary_path-set which configs _ lib)
      (Safe-bind ⊥ _ _ (with_slash (c ∷ s)) _ (with_slash-ends (c ∷ s) (λ e. cc)) (λ tmp_path _.
        Safe-bind ⊥ _ _ (with_slash (d ∷ t)) _ (with_slash-ends (d ∷ t) (λ e. cc))
          (λ lib_path _. tt)))

-- What is known of every value that may come, and that one comes.
pub Holds-Safe :
    {A : Type 0} (P : A → Type 0) (m : Outcome A) → Holds P m → Safe ⊥ (λ a. Unit) m → Safe ⊥ P m
Holds-Safe P (done a) h s = h
Holds-Safe P exited h s = s
Holds-Safe P undefined h s = s
