-- ===== src/Profile.antt =====
-- src/infrastructure.cpp: run_perf_record and run_perf2bolt. Each call counts itself in a static
-- variable; its command line is the value that is modelled, and for perf2bolt also the file
-- BOLTed_bin_info.txt. The environment is that of the constructor.
pub mod Rounds
use ocolos_public.Prelude.{
  ℕ, ◌+◌, Bool, true, false, ◌||◌, List, [], ◌∷◌, ◌++◌, Option, none, some, ◌==◌, if◌then◌else◌,
  Bytes, codes, str_eq, Outcome, done, exited, undefined, ◌>>=◌,
}
use ocolos_public.Utils.{split_line, to_string}
use ocolos_public.Config.{Env}

-- `ss << func_exec_count`, in the second round and later.
abbrev pub round_text : ℕ → Bytes
round_text func_exec_count = if func_exec_count == 1 then [] else to_string func_exec_count

-- The count of the call before, to the new count and the command.
unfoldable pub run_perf_record : Env → ℕ → ℕ → ℕ × Bytes
run_perf_record e target_pid before =
    let func_exec_count = before + 1 in
    let first =
      (e.perf_path
        ++ (codes " record -e cycles:u -j any,u -a -o "
            ++ (e.tmp_data_path
                ++ (codes "perf.data -p " ++ (to_string target_pid ++ codes " -- sleep 60"))))) in
    let later =
      (e.perf_path
        ++ (codes " record -e cycles:u -j any,u -a -o "
            ++ (e.tmp_data_path
                ++ (codes "perf"
                    ++ (to_string func_exec_count
                        ++ (codes ".data -p "
                            ++ (to_string target_pid ++ codes " -- sleep 60"))))))) in
    (func_exec_count, if func_exec_count == 1 then first else later)

-- The command of run_perf2bolt.
unfoldable pub perf2bolt_command : Env → ℕ → Bytes
perf2bolt_command e func_exec_count =
    let first =
      (e.perf2bolt_path
        ++ (codes " -p "
            ++ (e.tmp_data_path
                ++ (codes "perf.data -o "
                    ++ (e.tmp_data_path
                        ++ (codes "perf.fdata " ++ e.cmds.target_binary_path)))))) in
    let later =
      (e.perf2bolt_path
        ++ (codes " --ignore-build-id --cont-opt"
            ++ (codes " -p "
                ++ (e.tmp_data_path
                    ++ (codes "perf"
                        ++ (to_string func_exec_count
                            ++ (codes ".data -o "
                                ++ (e.tmp_data_path
                                    ++ (codes "perf"
                                        ++ (to_string func_exec_count
                                            ++ (codes ".fdata "
                                                ++ e.cmds.target_binary_path))))))))))) in
    if func_exec_count == 1 then first else later

-- The words behind `####` in the lines that perf2bolt prints.
unfoldable pub bolted_addrs : List Bytes → List Bytes
bolted_addrs [] = []
bolted_addrs (line ∷ lines) = elim (split_line line) [
  | [] ↦ bolted_addrs lines
  | mark ∷ words ↦ elim words [
    | [] ↦ bolted_addrs lines
    | addr ∷ more ↦
        let rest = bolted_addrs lines in if str_eq mark (codes "####") then addr ∷ rest else rest
  ]
]

-- `fprintf(fp, "%s\n", ...)` for each string.
unfoldable pub print_lines : List Bytes → Bytes
print_lines [] = []
print_lines (s ∷ ss) = s ++ (10 ∷ print_lines ss)

-- The file of a later round: it is written anew for each marked line, so the last one stays.
unfoldable pub last_info : Env → Option Bytes → List Bytes → Option Bytes
last_info e file [] = file
last_info e file (addr ∷ addrs) =
    last_info e (some (print_lines (e.bolted_binary_path ∷ []) ++ addr)) addrs

-- The path and the content of the file: that of the first round, if a line is marked, and that of a
-- later one.
unfoldable pub first_info : Env → List Bytes → Option (Bytes × Bytes)
unfolding print_lines
first_info e [] = none
first_info e (addr ∷ addrs) = some (
  e.tmp_data_path ++ codes "BOLTed_bin_info.txt",
  print_lines (e.bolted_binary_path ∷ e.cmds.target_binary_path ∷ addr ∷ addrs),
)

unfoldable pub later_info : Env → Option Bytes → Option (Bytes × Bytes)
later_info e none = none
later_info e (some text) = some (e.dir_path ++ codes "BOLTed_bin_info.txt", text)

-- The new count, and the path and the content of the file, if one is written. `none`: popen gave
-- NULL.
unfoldable pub run_perf2bolt : Env → Option (List Bytes) → ℕ → Outcome (ℕ × Option (Bytes × Bytes))
unfolding bolted_addrs first_info last_info later_info
run_perf2bolt e none before = exited
run_perf2bolt e (some lines) before =
    let func_exec_count = before + 1 in
    let addrs = bolted_addrs lines in
    done (
      func_exec_count,
      if func_exec_count == 1 then first_info e addrs else later_info e (last_info e none addrs),
    )

-- The option of run_llvmbolt that names the profile.
unfoldable pub llvmbolt_profile : Env → Bytes
llvmbolt_profile e = e.tmp_data_path ++ codes "perf.fdata"
