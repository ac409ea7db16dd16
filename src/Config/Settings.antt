-- ===== src/Config/Settings.antt =====
-- A configuration file, as it is written, and what read_config makes of it.
use ocolos_public.Prelude.{
  ℕ, ◌≡◌, ◌≢◌, refl, ap, inl, inr, ◌∙◌, Bool, true, false, not, ◌&&◌, ◌||◌, leb, length, List, [],
  ◌∷◌, ◌++◌, map, Option, none, some, ◌==◌, if◌then◌else◌, Bytes, codes, str_eq, str_eq_iff,
  Bool-cases, All, Outcome, done, exited, undefined, ◌>>=◌, Safe, Safe-bind, Safe-map, arith,
}
use ocolos_public.Config.{
  Configs, find_config, assign_config, last_is, pop_back, chomp, with_slash, split_setting,
  set_config, config_lines, read_config,
}

-- A line of the file: a setting, a comment, or nothing.
pub data Line : Type 0 where
  setting : Bytes → Bytes → Line
  comment : Bytes → Line
  blank : Line

-- The line without its newline.
abbrev pub line_text : Line → Bytes
line_text (setting key value) = key ++ (b'=' ∷ value)
line_text (comment s) = b'#' ∷ s
line_text blank = []

abbrev pub file_lines : List Line → List Bytes
file_lines = map (λ l. line_text l ++ codes "\n")

-- The key of a setting holds no `=`, and does not start with `#`.
abbrev HasKey : Line → Type 0
HasKey (setting [] value) = Unit
HasKey (setting (c ∷ key) value) = ((c == b'#') ≡ false) × All (λ d. (d == b'=') ≡ false) (c ∷ key)
HasKey (comment s) = Unit
HasKey blank = Unit

-- The text holds no newline and no NUL.
abbrev pub is_one_line : Bytes → Bool
is_one_line [] = true
is_one_line (c ∷ s) = not (c == 10 || c == 0) && is_one_line s

-- One fgets call with a buffer of 4096 bytes returns the line with its newline.
abbrev pub IsLine : Line → Type 0
IsLine l = HasKey l × (is_one_line (line_text l) ≡ true) × (leb (length (line_text l)) 4094 ≡ true)

All-HasKey : (ls : List Line) → All IsLine ls → All HasKey ls
All-HasKey [] h = tt
All-HasKey (l ∷ ls) (h, hs) = (h.0, All-HasKey ls hs)

abbrev or_else : Option Bytes → Option Bytes → Option Bytes
or_else (some v) other = some v
or_else none other = other

abbrev setting_of : Bytes → Line → Option Bytes
setting_of name (setting key value) = if str_eq key name then some value else none
setting_of name (comment s) = none
setting_of name blank = none

-- The value of the last setting with the name.
unfoldable pub last_setting : Bytes → List Line → Option Bytes
last_setting name [] = none
last_setting name (l ∷ ls) = or_else (last_setting name ls) (setting_of name l)

last_is-concat : (c d : ℕ) (s : Bytes) → last_is c (s ++ (d ∷ [])) ≡ done (d == c)
unfolding last_is
last_is-concat c d [] = refl
last_is-concat c d (x ∷ []) = refl
last_is-concat c d (x ∷ y ∷ s) = last_is-concat c d (y ∷ s)

pop_back-concat : (d : ℕ) (s : Bytes) → pop_back (s ++ (d ∷ [])) ≡ s
unfolding pop_back
pop_back-concat d [] = refl
pop_back-concat d (x ∷ []) = refl
pop_back-concat d (x ∷ y ∷ s) = rw (pop_back-concat d (y ∷ s)) refl

chomp-concat : (s : Bytes) → chomp (s ++ codes "\n") ≡ done s
unfolding chomp
chomp-concat s = rw (last_is-concat 10 10 s, pop_back-concat 10 s) refl

split_setting-key :
    (key value : Bytes)
    → All (λ d. (d == b'=') ≡ false) key
    → split_setting (key ++ (b'=' ∷ value)) ≡ some (key, value)
unfolding split_setting
split_setting-key [] value h = refl
split_setting-key (c ∷ key) value (h, hs) = rw (h, split_setting-key key value hs) refl

find_config-assign :
    (name key value : Bytes) (m : Configs)
    → find_config name (assign_config key value m)
      ≡ (if str_eq key name then some value else find_config name m)
unfolding find_config assign_config
find_config-assign name key value [] = refl
find_config-assign name key value ((k, old) ∷ m) = elim (Bool-cases (str_eq k key)) [
  | inl same ↦
      let e : k ≡ key = (str_eq_iff k key).0 same in
      rw (same, e) (elim (Bool-cases (str_eq key name)) [ inl h ↦ rw h refl | inr h ↦ rw h refl ])
  | inr other ↦ rw other (elim (Bool-cases (str_eq k name)) [
    | inl h ↦ let e : k ≡ name = (str_eq_iff k name).0 h in rw (h, differ e other) refl
    | inr h ↦ rw (h, find_config-assign name key value m) refl
  ])
]
  where
    differ : k ≡ name → str_eq k key ≡ false → str_eq key name ≡ false
    differ e other = ground (arith, str_eq_iff k key, str_eq_iff key name)

chosen :
    (m : Configs) (key value name : Bytes)
    → find_config name (assign_config key value m)
      ≡ or_else (if str_eq key name then some value else none) (find_config name m)
chosen m key value name = elim (Bool-cases (str_eq key name)) [
  | inl h ↦ find_config-assign name key value m ∙ rw h refl
  | inr h ↦ find_config-assign name key value m ∙ rw h refl
]

-- One line of the file: a setting is assigned, and nothing else changes.
set_config-Line :
    (m : Configs) (l : Line)
    → HasKey l
    → Safe ⊥
        (λ m'.
          (name : Bytes) → find_config name m' ≡ or_else (setting_of name l) (find_config name m))
        (set_config m (line_text l))
unfolding set_config
set_config-Line m (setting [] value) h = λ name. chosen m [] value name
set_config-Line m (setting (c ∷ key) value) (sharp, h) =
    rw (sharp, split_setting-key (c ∷ key) value h) (λ name. chosen m (c ∷ key) value name)
set_config-Line m (comment s) h = λ name. refl
set_config-Line m blank h = λ name. refl

or_else_assoc : (a b c : Option Bytes) → or_else a (or_else b c) ≡ or_else (or_else a b) c
or_else_assoc none b c = refl
or_else_assoc (some v) b c = refl

config_lines-settings :
    (m : Configs) (ls : List Line)
    → All HasKey ls
    → Safe ⊥
        (λ m'.
          (name : Bytes)
          → find_config name m' ≡ or_else (last_setting name ls) (find_config name m))
        (config_lines m (file_lines ls))
unfolding config_lines last_setting
config_lines-settings m [] h = λ name. refl
config_lines-settings m (l ∷ ls) (h, hs) = rw (chomp-concat (line_text l)) (
    Safe-bind ⊥ _ _ (set_config m (line_text l)) _ (set_config-Line m l h) (λ m₁ one.
      Safe-map ⊥ _ _ (config_lines m₁ (file_lines ls)) (config_lines-settings m₁ ls hs)
        (λ m₂ more name.
          more name
          ∙ ap (or_else (last_setting name ls)) (one name)
          ∙ or_else_assoc (last_setting name ls) (setting_of name l) (find_config name m))))

pub last_is_defined :
    (c : ℕ) (s : Bytes) → s ≢ [] → (last_is c s ≢ undefined) × (last_is c s ≢ exited)
unfolding last_is
last_is_defined c [] ne = absurd (ne refl)
last_is_defined c (d ∷ []) ne = ((λ e. cc), λ e. cc)
last_is_defined c (d ∷ e ∷ s) ne = last_is_defined c (e ∷ s) (λ h. cc)

pub with_slash-ends : (s : Bytes) → s ≢ [] → Safe ⊥ (λ d. last_is b'/' d ≡ done true) (with_slash s)
unfolding with_slash
with_slash-ends s ne = go (last_is b'/' s) refl
  where
    go :
        (o : Outcome Bool)
        → last_is b'/' s ≡ o
        → Safe ⊥
            (λ d. last_is b'/' d ≡ done true)
            (o >>= λ slash. done (if slash then s else s ++ codes "/"))
    go (done true) e = e
    go (done false) e = last_is-concat b'/' b'/' s
    go exited e = absurd ((last_is_defined b'/' s ne).1 e)
    go undefined e = absurd ((last_is_defined b'/' s ne).0 e)

-- A file of settings, comments and empty lines is read without fault or exit, if OCOLOS_PATH is not
-- empty: dir_path ends with a slash, and every name has the value of its last setting, or none if
-- it has no setting. A key must hold no `=` and not start with `#`; a line must hold no newline and
-- no NUL, and at most 4094 chars.
pub read_config-settings :
    (dir : Bytes) (ls : List Line)
    → dir ≢ []
    → All IsLine ls
    → Safe ⊥
        (λ (dir_path, configs).
          (last_is b'/' dir_path ≡ done true)
          × ((name : Bytes) → find_config name configs ≡ last_setting name ls))
        (read_config (some dir) (some (file_lines ls)))
unfolding read_config find_config
read_config-settings dir ls ne h =
    Safe-bind ⊥ _ _ (with_slash dir) _ (with_slash-ends dir ne) (λ d slash.
      Safe-bind ⊥ _ _ (config_lines [] (file_lines ls)) _
        (config_lines-settings [] ls (All-HasKey ls h))
        (λ m found. (slash, λ name. found name ∙ or_none (last_setting name ls))))
  where
    or_none : (o : Option Bytes) → or_else o none ≡ o
    or_none none = refl
    or_none (some v) = refl
