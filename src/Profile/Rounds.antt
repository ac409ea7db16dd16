-- ===== src/Profile/Rounds.antt =====
-- The profiles of the rounds: what one command writes, the next one reads.
use ocolos_public.Prelude.{
  ℕ, ◌+◌, ◌≡◌, refl, inl, inr, Bool-cases, [], ◌∷◌, ◌++◌, ◌==◌, Bytes, codes, append_assoc,
}
use ocolos_public.Utils.{to_string}
use ocolos_public.Config.{Env}
use ocolos_public.Profile.{round_text, run_perf_record, perf2bolt_command, llvmbolt_profile}

-- The command has the option with the file behind it, and then `rest`.
abbrev pub Names : Bytes → Bytes → Bytes → Bytes → Type 0
Names command option file rest = (front : Bytes) × (command ≡ front ++ (option ++ (file ++ rest)))

-- The command has the option with the file as its whole argument: a space follows.
abbrev pub NamesWord : Bytes → Bytes → Bytes → Type 0
NamesWord command option file = (rest : Bytes) × Names command option file (32 ∷ rest)

-- The profile of a round.
abbrev pub perf_data : Env → ℕ → Bytes
perf_data e n = e.tmp_data_path ++ (codes "perf" ++ (round_text n ++ codes ".data"))

-- The parts of a command, put together in another order.
regroup :
    (tool options option dir name round ending rest : Bytes)
    → tool ++ (options ++ (option ++ (dir ++ (name ++ (round ++ (ending ++ rest))))))
      ≡ (tool ++ options) ++ (option ++ ((dir ++ (name ++ (round ++ ending))) ++ rest))
regroup tool options option dir name round ending rest =
    rw
      (
        append_assoc tool options (option ++ ((dir ++ (name ++ (round ++ ending))) ++ rest)),
        append_assoc dir (name ++ (round ++ ending)) rest,
        append_assoc name (round ++ ending) rest,
        append_assoc round ending rest,
      )
      refl

-- In every round perf2bolt reads, by its option -p, the file that perf record has written, by its
-- option -o, in the same round; in both commands a space ends the name of the file.
pub perf2bolt_reads :
    (e : Env) (target_pid before : ℕ)
    → NamesWord (run_perf_record e target_pid before).1 (codes " -o ") (perf_data e (before + 1))
      × NamesWord (perf2bolt_command e (before + 1)) (codes " -p ") (perf_data e (before + 1))
unfolding run_perf_record perf2bolt_command
perf2bolt_reads e target_pid before =
    let n = to_string (before + 1) in
    let until' = codes "-p " ++ (to_string target_pid ++ codes " -- sleep 60") in
    let until = codes " -p " ++ (to_string target_pid ++ codes " -- sleep 60") in
    let options = codes " record -e cycles:u -j any,u -a" in
    let binary = e.cmds.target_binary_path in
    let out_rest = codes "-o " ++ (e.tmp_data_path ++ (codes "perf.fdata " ++ binary)) in
    let out = codes " -o " ++ (e.tmp_data_path ++ (codes "perf.fdata " ++ binary)) in
    let out_rest' =
      codes "-o " ++ (e.tmp_data_path ++ (codes "perf" ++ (n ++ (codes ".fdata " ++ binary)))) in
    let out' =
      codes " -o " ++ (e.tmp_data_path ++ (codes "perf" ++ (n ++ (codes ".fdata " ++ binary)))) in
    let cont = codes " --ignore-build-id --cont-opt" in
    elim (Bool-cases (before + 1 == 1)) [
      | inl first ↦ rw first (
        (
          until',
          (
            e.perf_path ++ options,
            regroup e.perf_path options (codes " -o ") e.tmp_data_path (codes "perf") []
                (codes ".data") until,
          ),
        ),
        (
          out_rest,
          (
            e.perf2bolt_path ++ [],
            regroup e.perf2bolt_path [] (codes " -p ") e.tmp_data_path (codes "perf") []
                (codes ".data") out,
          ),
        ),
      )
      | inr later ↦ rw later (
        (
          until',
          (
            e.perf_path ++ options,
            regroup e.perf_path options (codes " -o ") e.tmp_data_path (codes "perf") n
                (codes ".data") until,
          ),
        ),
        (
          out_rest',
          (
            e.perf2bolt_path ++ cont,
            regroup e.perf2bolt_path cont (codes " -p ") e.tmp_data_path (codes "perf") n
                (codes ".data") out',
          ),
        ),
      )
    ]

-- In the first round llvm-bolt reads the file that perf2bolt has written by its option -o.
pub llvmbolt_reads :
    (e : Env)
    → Names
        (perf2bolt_command e 1)
        (codes " -o ")
        (llvmbolt_profile e)
        (codes " " ++ e.cmds.target_binary_path)
unfolding perf2bolt_command llvmbolt_profile
llvmbolt_reads e =
    let binary = e.cmds.target_binary_path in
    let out = codes " -o " ++ (e.tmp_data_path ++ (codes "perf.fdata " ++ binary)) in
    (
      e.perf2bolt_path ++ (codes " -p " ++ (e.tmp_data_path ++ codes "perf.data")),
      rw
          (
            append_assoc e.tmp_data_path (codes "perf.fdata") (codes " " ++ binary),
            append_assoc e.perf2bolt_path (codes " -p " ++ (e.tmp_data_path ++ codes "perf.data"))
                out,
            append_assoc e.tmp_data_path (codes "perf.data") out,
          )
          refl,
    )
