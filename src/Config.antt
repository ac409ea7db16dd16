-- ===== src/Config.antt =====
-- src/utils.cpp, the class ocolos_env: the configuration file and the commands in it. A file is
-- `none` where fopen or popen gave NULL; a line is what one fgets call returns.
pub mod Settings
pub mod Paths
pub mod Complete
pub mod Commands
use ocolos_public.Prelude.{
  ℕ, ◌+◌, ◌-◌, Bool, true, false, not, ◌&&◌, List, [], ◌∷◌, ◌++◌, Option, none, some, ltb, ◌==◌,
  if◌then◌else◌, Bytes, codes, str_eq, length, take, drop, Outcome, done, exited, undefined, ◌>>=◌,
}
use ocolos_public.Utils.{split_line}

-- unordered_map<string, string>.
abbrev pub Configs : Type 0
Configs = List (Bytes × Bytes)

unfoldable pub find_config : Bytes → Configs → Option Bytes
find_config name [] = none
find_config name ((key, value) ∷ configs) =
    if str_eq key name then some value else find_config name configs

unfoldable pub assign_config : Bytes → Bytes → Configs → Configs
assign_config name value [] = (name, value) ∷ []
assign_config name value ((key, old) ∷ configs) =
    if str_eq key name
    then (key, value) ∷ configs
    else (key, old) ∷ assign_config name value configs

-- `s[s.size() - 1] == c`; for an empty string the index wraps.
unfoldable pub last_is : ℕ → Bytes → Outcome Bool
last_is c [] = undefined
last_is c (d ∷ []) = done (d == c)
last_is c (d ∷ e ∷ s) = last_is c (e ∷ s)

-- `pop_back()`.
unfoldable pub pop_back : Bytes → Bytes
pop_back [] = []
pop_back (c ∷ []) = []
pop_back (c ∷ d ∷ s) = c ∷ pop_back (d ∷ s)

-- `if (s[s.size() - 1] == '\n') s.pop_back();`
unfoldable pub chomp : Bytes → Outcome Bytes
unfolding last_is pop_back
chomp s = last_is 10 s >>= λ newline. done (if newline then pop_back s else s)

-- `if (s[s.size() - 1] != '/') s.push_back('/');`
unfoldable pub with_slash : Bytes → Outcome Bytes
unfolding last_is
with_slash s = last_is b'/' s >>= λ slash. done (if slash then s else s ++ codes "/")

-- `substr(0, find("="))` and what follows the `=`; without one, `substr(npos, ...)` throws.
unfoldable pub split_setting : Bytes → Option (Bytes × Bytes)
split_setting [] = none
split_setting (c ∷ s) =
    let rest = split_setting s in
    if c == b'='
    then some ([], s)
    else elim rest [ none ↦ none | some (key, value) ↦ some (c ∷ key, value) ]

-- A line without its newline: nothing for an empty one or a comment.
unfoldable pub set_config : Configs → Bytes → Outcome Configs
unfolding split_setting assign_config
set_config configs [] = done configs
set_config configs (c ∷ s) = if c == b'#' then done configs else elim (split_setting (c ∷ s)) [
  | none ↦ undefined
  | some (bin_name, path_name) ↦ done (assign_config bin_name path_name configs)
]

unfoldable pub config_lines : Configs → List Bytes → Outcome Configs
unfolding set_config chomp
config_lines configs [] = done configs
config_lines configs (line ∷ lines) = do
  current_line ← chomp line
  configs' ← set_config configs current_line
  config_lines configs' lines

-- read_config: the variable OCOLOS_PATH and the file. The first field of the result is dir_path.
unfoldable pub read_config : Option Bytes → Option (List Bytes) → Outcome (Bytes × Configs)
unfolding config_lines with_slash
read_config none config = exited
read_config (some dir_path) none = with_slash dir_path >>= λ dir. exited
read_config (some dir_path) (some lines) = do
  dir ← with_slash dir_path
  configs ← config_lines [] lines
  done (dir, configs)

-- `which`: the first line that the command prints, if it can be started and prints one.
unfoldable pub get_binary_path : (Bytes → Option (Option Bytes)) → Configs → Bytes → Outcome Bytes
unfolding find_config chomp
get_binary_path which configs bin_name = elim (find_config bin_name configs) [
  | some path ↦ done path
  | none ↦ elim (which bin_name) [
    | none ↦ exited
    | some none ↦ exited
    | some (some path) ↦ chomp path
  ]
]

-- The two directories, tmp_data_path and lib_path.
unfoldable pub get_dir_path : (Bytes → Option (Option Bytes)) → Configs → Outcome (Bytes × Bytes)
unfolding get_binary_path with_slash
get_dir_path which configs = do
  tmp_data ← get_binary_path which configs (codes "tmp_data_dir")
  tmp_data_path ← with_slash tmp_data
  lib ← get_binary_path which configs (codes "lib")
  lib_path ← with_slash lib
  done (tmp_data_path, lib_path)

-- What get_cmds sets.
pub record Cmds : Type 0 where
  pub run_server_cmd : Bytes
  pub init_benchmark_cmd : Bytes
  pub run_benchmark_cmd : Bytes
  pub target_binary_path : Bytes
  pub db_name : Bytes
  pub db_user_name : Bytes

-- `if (arg.length() > n - 1)`, `substr(0, n)` is the option, and the rest its value. An empty value
-- has no last char.
unfoldable pub read_option : Bytes → Bytes → Option Bytes → Outcome (Option Bytes)
unfolding chomp
read_option option arg old =
    let value = (chomp (drop (length option) arg) >>= λ v. done (some v)) in
    if ltb (length option - 1) (length arg) && str_eq (take (length option) arg) option
    then value
    else done old

unfoldable pub read_args :
    Option Bytes → Option Bytes → List Bytes → Outcome (Option Bytes × Option Bytes)
unfolding read_option
read_args db user [] = done (db, user)
read_args db user (arg ∷ args) = do
  db' ← read_option (codes "--mysql-db=") arg db
  user' ← read_option (codes "--mysql-user=") arg user
  read_args db' user' args

abbrev or_exit : {A : Type 0} → Option A → Outcome A
or_exit none = exited
or_exit (some a) = done a

-- `words[0]`.
abbrev first_word : List Bytes → Outcome Bytes
first_word [] = undefined
first_word (w ∷ ws) = done w

unfoldable pub get_cmds : Configs → Outcome Cmds
unfolding find_config read_args
get_cmds configs = do
  server ← or_exit (find_config (codes "server_cmd") configs)
  init ← or_exit (find_config (codes "init_benchmark_cmd") configs)
  run ← or_exit (find_config (codes "run_benchmark_cmd") configs)
  target ← first_word (split_line server)
  (db, user) ← read_args none none (split_line run)
  db_name ← or_exit db
  user_name ← or_exit user
  done (record {
    run_server_cmd = server;
    init_benchmark_cmd = init;
    run_benchmark_cmd = run;
    target_binary_path = target;
    db_name = db_name;
    db_user_name = user_name;
  })

-- The fields of ocolos_env that its constructor sets, but for the socket.
pub record Env : Type 0 where
  pub dir_path : Bytes
  pub configs : Configs
  pub tmp_data_path : Bytes
  pub lib_path : Bytes
  pub cmds : Cmds
  pub bolted_binary_path : Bytes
  pub ld_preload_path : Bytes
  pub bolted_function_bin : Bytes
  pub call_sites_bin : Bytes
  pub v_table_bin : Bytes
  pub unmoved_func_bin : Bytes
  pub call_sites_all_bin : Bytes
  pub call_sites_list_bin : Bytes
  pub perf_path : Bytes
  pub nm_path : Bytes
  pub objdump_path : Bytes
  pub llvmbolt_path : Bytes
  pub perf2bolt_path : Bytes
  pub client_binary_path : Bytes

unfoldable pub ocolos_env :
    (Bytes → Option (Option Bytes)) → Option Bytes → Option (List Bytes) → Outcome Env
unfolding read_config get_dir_path get_cmds get_binary_path
ocolos_env which dir config = do
  (dir_path, configs) ← read_config dir config
  (tmp_data_path, lib_path) ← get_dir_path which configs
  cmds ← get_cmds configs
  perf ← get_binary_path which configs (codes "perf")
  nm ← get_binary_path which configs (codes "nm")
  objdump ← get_binary_path which configs (codes "objdump")
  llvmbolt ← get_binary_path which configs (codes "llvm-bolt")
  perf2bolt ← get_binary_path which configs (codes "perf2bolt")
  client ← get_binary_path which configs (codes "mysql")
  done (record {
    dir_path = dir_path;
    configs = configs;
    tmp_data_path = tmp_data_path;
    lib_path = lib_path;
    cmds = cmds;
    bolted_binary_path = tmp_data_path ++ codes "mysqld.bolt";
    ld_preload_path = lib_path ++ codes "replace_function.so";
    bolted_function_bin = tmp_data_path ++ codes "bolted_functions.bin";
    call_sites_bin = tmp_data_path ++ codes "call_sites.bin";
    v_table_bin = tmp_data_path ++ codes "v_table.bin";
    unmoved_func_bin = tmp_data_path ++ codes "unmoved_func.bin";
    call_sites_all_bin = tmp_data_path ++ codes "call_sites_all.bin";
    call_sites_list_bin = tmp_data_path ++ codes "call_sites_list.bin";
    perf_path = perf;
    nm_path = nm;
    objdump_path = objdump;
    llvmbolt_path = llvmbolt;
    perf2bolt_path = perf2bolt;
    client_binary_path = client;
  })

-- ocolos_env::get_dir_path of src/replace_function.cpp: the four files of the library and its log.
unfoldable pub library_files : Bytes → List Bytes
library_files tmp_data_path =
    (tmp_data_path ++ codes "bolted_functions.bin")
    ∷ (tmp_data_path ++ codes "call_sites.bin")
    ∷ (tmp_data_path ++ codes "v_table.bin")
    ∷ (tmp_data_path ++ codes "unmoved_func.bin")
    ∷ (tmp_data_path ++ codes "machine_code.txt")
    ∷ []
