-- ===== src/Tests/Config.antt =====
-- src/utils.cpp, the class ocolos_env, on a small configuration file.
use ocolos_public.Prelude.{
  ◌≡◌, true, List, [], ◌∷◌, Option, some, Bytes, codes, All, str_eq, done, Safe, refl, inl, inr,
  arith,
}
use ocolos_public.Config.{Configs, find_config, last_is, read_config, ocolos_env, get_cmds}
use ocolos_public.Config.Settings.{
  Line, setting, comment, blank, file_lines, IsLine, last_setting, read_config-settings,
}
use ocolos_public.Config.Paths.{HasPaths, IsComplete, tools, ocolos_env-HasPaths}
use ocolos_public.Config.Complete.{CanRun, Found}
use ocolos_public.Utils.{split_line}
use ocolos_public.Config.Commands.{IsGiven, get_cmds-IsGiven}

abbrev lines : List Line
lines =
    comment (codes " the tools")
    ∷ setting (codes "nm") (codes "/usr/bin/nm")
    ∷ blank
    ∷ setting (codes "server_cmd") (codes "/opt/mysqld --port=3306")
    ∷ []

lines-IsLine : All IsLine lines
lines-IsLine = ground arith

read_config-settings_example :
    Safe ⊥
      (λ (dir_path, configs).
        (last_is b'/' dir_path ≡ done true)
        × ((name : Bytes) → find_config name configs ≡ last_setting name lines))
      (read_config (some (codes "/home/ocolos")) (some (file_lines lines)))
read_config-settings_example =
    read_config-settings (codes "/home/ocolos") lines (λ e. cc) lines-IsLine

abbrev pub nowhere : Bytes → Option (Option Bytes)
nowhere name = some (some (codes "/usr/bin/x\n"))

-- It names all that the constructor wants.
abbrev pub full_lines : List Line
full_lines =
    setting (codes "server_cmd") (codes "/opt/mysqld --port=3306")
    ∷ setting (codes "init_benchmark_cmd") (codes "sysbench prepare")
    ∷ setting (codes "run_benchmark_cmd") (codes "sysbench --mysql-db=db --mysql-user=me run")
    ∷ setting (codes "tmp_data_dir") (codes "/t")
    ∷ setting (codes "lib") (codes "/o/lib")
    ∷ []

pub full_lines-IsLine : All IsLine full_lines
full_lines-IsLine = ground arith

abbrev settings : Configs
settings =
    (codes "server_cmd", codes "/opt/mysqld --port=3306")
    ∷ (codes "init_benchmark_cmd", codes "sysbench prepare")
    ∷ (codes "run_benchmark_cmd", codes "sysbench --mysql-db=db --mysql-user=me run")
    ∷ []

runs_commands :
    (get : Bytes → Option Bytes)
    → get (codes "server_cmd") ≡ some (codes "/opt/mysqld --port=3306")
    → get (codes "init_benchmark_cmd") ≡ some (codes "sysbench prepare")
    → get (codes "run_benchmark_cmd") ≡ some (codes "sysbench --mysql-db=db --mysql-user=me run")
    → CanRun get
unfolding split_line str_eq
runs_commands get s i r = record {
  server = codes "/opt/mysqld --port=3306";
  init = codes "sysbench prepare";
  run = codes "sysbench --mysql-db=db --mysql-user=me run";
  target = codes "/opt/mysqld";
  more = codes "--port=3306" ∷ [];
  has_server = s;
  has_init = i;
  has_run = r;
  words = refl;
  db = inr (inl refl);
  user = inr (inr (inl refl));
  db_values = (refl, (refl, (refl, (refl, tt))));
  user_values = (refl, (refl, (refl, (refl, tt))));
}

all-Found : (names : List Bytes) → All (Found nowhere (λ n. last_setting n full_lines)) names
all-Found [] = tt
all-Found (name ∷ names) = (inr (codes "/usr/bin/x\n", refl, λ e. cc), all-Found names)

pub full_lines-IsComplete : IsComplete nowhere (λ name. last_setting name full_lines)
unfolding last_setting str_eq
full_lines-IsComplete = record {
  can_run = runs_commands (λ name. last_setting name full_lines) refl refl refl;
  tmp_data_dir = (_, _, refl);
  lib = (_, _, refl);
  found = all-Found tools;
}

ocolos_env-HasPaths_example :
    Safe ⊥ HasPaths
      (ocolos_env nowhere (some (codes "/home/ocolos")) (some (file_lines full_lines)))
ocolos_env-HasPaths_example =
    ocolos_env-HasPaths nowhere (codes "/home/ocolos") full_lines (λ e. cc) full_lines-IsLine
      full_lines-IsComplete

settings-CanRun : CanRun (λ name. find_config name settings)
unfolding find_config str_eq
settings-CanRun = runs_commands (λ name. find_config name settings) refl refl refl

get_cmds-IsGiven_example : Safe ⊥ (IsGiven settings) (get_cmds settings)
get_cmds-IsGiven_example = get_cmds-IsGiven settings settings-CanRun
