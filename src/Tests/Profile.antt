-- ===== src/Tests/Profile.antt =====
-- The commands of src/infrastructure.cpp in an environment.
use ocolos_public.Prelude.{◌+◌, ◌≡◌, refl, [], ◌∷◌, some, codes, str_eq, done}
use ocolos_public.Utils.{split_line}
use ocolos_public.Config.{Env}
use ocolos_public.Profile.{run_perf_record, perf2bolt_command, run_perf2bolt}
use ocolos_public.Profile.Rounds.{NamesWord, perf_data, perf2bolt_reads}

abbrev small_env : Env
small_env = record {
  dir_path = codes "/o/";
  configs = [];
  tmp_data_path = codes "/t/";
  lib_path = codes "/l/";
  cmds = record {
    run_server_cmd = codes "/b/mysqld";
    init_benchmark_cmd = [];
    run_benchmark_cmd = [];
    target_binary_path = codes "/b/mysqld";
    db_name = codes "db";
    db_user_name = codes "me";
  };
  bolted_binary_path = codes "/t/mysqld.bolt";
  ld_preload_path = [];
  bolted_function_bin = [];
  call_sites_bin = [];
  v_table_bin = [];
  unmoved_func_bin = [];
  call_sites_all_bin = [];
  call_sites_list_bin = [];
  perf_path = codes "perf";
  nm_path = [];
  objdump_path = [];
  llvmbolt_path = [];
  perf2bolt_path = codes "perf2bolt";
  client_binary_path = [];
}

perf2bolt_reads_example :
    NamesWord (run_perf_record small_env 77 1).1 (codes " -o ") (perf_data small_env (1 + 1))
    × NamesWord (perf2bolt_command small_env (1 + 1)) (codes " -p ") (perf_data small_env (1 + 1))
perf2bolt_reads_example = perf2bolt_reads small_env 77 1

-- In the first round every marked address goes into the file.
first_round :
    run_perf2bolt small_env (some (codes "#### 4a" ∷ codes "done" ∷ [])) 0
    ≡ done (1, some (codes "/t/BOLTed_bin_info.txt", codes "/t/mysqld.bolt\n/b/mysqld\n4a\n"))
unfolding run_perf2bolt split_line str_eq
first_round = refl
