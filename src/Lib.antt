-- ===== src/Lib.antt =====
-- OCOLOS replaces the code of a running process with code that BOLT has optimised. This library
-- models the programs of the repository that do so, and proves what they do.
--
-- The parts and how they interact:
--   extract_call_sites   (src/extract_call_sites.cpp) lists, before the run, the direct calls of the
--                        target binary, and groups them by the function they call.
--   tracer               (src/tracer.cpp, src/infrastructure.cpp, src/extract_machine_code.cpp,
--                        src/ptrace_pause.cpp) has BOLT move functions, stops the target process,
--                        works out which functions are on its call stacks, writes the new call
--                        instructions for these to a file, and makes one thread of the target run
--                        the library.
--   elf-extract          (elf-extract/src/lib.rs) cuts the functions and the v-tables out of the binary
--                        that BOLT wrote.
--   the pass             (hook-function-pointers-llvm/HookFunctionPointers.cpp) compiles the target so
--                        that every function pointer it stores goes through a hook.
--   the library          (src/replace_function.cpp) is loaded into the target process. It reads the
--                        files of machine code and copies them into memory.
--
-- The files:
--   Utils       src/utils.cpp: split_line, split, the conversions between numbers and text, and the
--               four bytes of a displacement. A text is the list of its chars' codes. The
--               conversions keep their 64 bits (`% 2 ^ 64`), and a pid_t its 32.
--   Config      src/utils.cpp, the class ocolos_env: the configuration file, the directories, the
--               commands and the paths. The output of which(1) is a parameter.
--   Functions   src/infrastructure.cpp and func_info of src/utils.hpp: the tables of functions, by
--               original address. An unordered_map is the list of its entries in the order in which
--               a loop meets them, and a map is the list ordered by key. A theorem on the former
--               holds for every such order. A long is held by its 64 bits, and long_rank is its
--               place in the order of longs.
--   Records     the records of the files: address, length, code, each number in eight bytes.
--   Tracee      src/replace_function.cpp. The kernel (mmap, mprotect, and a store that may fault) is
--               a record Kernel that the definitions take, with its documented laws in IsKernel.
--   CallSites   src/extract_call_sites.cpp and src/boost_serialization.hpp. objdump and nm are
--               functions that give the lines they print. The sixteen threads have a map each and
--               share nothing, so they are run in their order.
--   Patch       src/extract_machine_code.cpp, and the way from its file to the memory.
--   Process     the whole of a target process: its threads and its memory, and the run of the library
--               that joins the two. What a continued thread does is a hypothesis, IsTarget: it
--               runs the library, unless another signal stops it.
--   Ptrace      src/ptrace_pause.cpp, and the loop of src/tracer.cpp that inserts the code. ptrace and
--               waitpid are a record Tracing with its documented laws in IsTracing. A real-time signal has
--               no name in _sys_siglist, and strdup of it is undefined; HasNamedStops excludes that.
--   Tracer      src/tracer.cpp, from the output of llvm-bolt to the plan of what to insert, with
--               get_v_table and write_func_on_call_stack_into_file of src/infrastructure.cpp and
--               unwind_call_stack of src/ptrace_pause.cpp. The frames of the stacks are a parameter.
--   Round       the calls of main of src/tracer.cpp that write the files, and one whole round of code
--               replacement, from the output of the programs to the memory of the target.
--   Handshake   the two messages between tracer and library (src/infrastructure.cpp and
--               src/replace_function.cpp), with the sizes of their buffers. The two copies with strcpy write
--               one byte more than malloc was asked for; `block` says how much it gave, and a copy past
--               that is undefined.
--               Handshake.Sockets has the sockets as a record Network with its documented laws, and
--               programs as lists of calls, one call a step in any order of the two; Handshake.Startup
--               is the exchange of the address, Handshake.Phases that of the path.
--   Launch      the environment of the target process: create_target_server_process of
--               src/infrastructure.cpp and the start of before_main of src/replace_function.cpp.
--   Hook        hook-function-pointers-llvm/HookFunctionPointers.cpp: the pass that puts a hook on
--               stored function pointers. LLVM is a record Ir with its documented laws in IsIr.
--   Elf         elf-extract/src/lib.rs: the functions and the v-tables of a binary as records, and the
--               way of the functions to the memory. What the object crate reads is a record Binary.
--   Accelerator build-accelerator/rca-clang-new/src/c/c_functions.c: the arrays with which clang is run
--               under perf.
--   Profile     run_perf_record and run_perf2bolt of src/infrastructure.cpp: the commands of each
--               round, and the file that the second writes.
--   Prelude     shared names, Boolean tests, lists, maps, integers and results.
--   Tests       runs on small inputs, with a small kernel and a small ptrace.
--
-- A result is `done`, `exited` where the code calls exit(-1), or `undefined` where it reads or
-- writes outside an object, faults, or throws with no handler. `Safe E P m` says that m is not
-- undefined, that it exits only for a reason in E, and that a result it gives has P; `Holds P m`
-- says the last alone.
--
-- Bounds and fuel: the loop over the records of a file has the length of the file as fuel, and each
-- round reads 17 bytes at least; the loop over the pages counts its rounds, one for each page up to
-- the last; the loop over the readings of /proc has fuel as an argument, and it is proved how much
-- is enough. Addresses of records lie in the lower half of the address space where a theorem
-- says so. Buffers of fgets are taken to be long enough for a line.
--
-- Not modelled: the programs that are started (their output is a parameter), the options and the
-- closing of sockets, libunwind, the parsing of binaries by the object crate, log output and time
-- measurement, and the Rust programs of build-accelerator, which only hook and start processes.
mod Prelude
pub mod Utils
pub mod Config
pub mod Functions
pub mod Records
pub mod Tracee
pub mod CallSites
pub mod Patch
pub mod Ptrace
pub mod Tracer
pub mod Handshake
pub mod Launch
pub mod Hook
pub mod Elf
pub mod Accelerator
pub mod Profile
pub mod Process
pub mod Round
mod Tests
