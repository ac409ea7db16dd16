-- ===== src/Tests/Tracer.antt =====
-- src/tracer.cpp with one moved function, and one that is on a stack.
use ocolos_public.Prelude.{
  ltb, if◌then◌else◌, ◌<◌, ℕ, ◌≡◌, ◌↔◌, ◌≤◌, List, [], ◌∷◌, Option, some, Bytes, codes, length,
  done, ◌>>=◌, arith,
}
use ocolos_public.Records.{get_long}
use ocolos_public.Functions.{get_keys_to_array}
use ocolos_public.Tracer.{write_func_on_call_stack_into_file}
use ocolos_public.Tracer.Arrays.{read_longs, callstack_file_reads}
use ocolos_public.Handshake.{send_data_path, get_data_path}
use ocolos_public.Handshake.Messages.{get_data_path-send_data_path}
use ocolos_public.Tests.Functions.{two_funcs}

abbrev pub frames : ℕ → Option (ℕ × List ℕ)
frames tid = some (24, 20 ∷ [])

callstack_file_reads_example :
    (rest : Bytes) × (get_long (write_func_on_call_stack_into_file two_funcs)
      ≡ some (length two_funcs, rest))
    × (read_longs (length two_funcs) rest ≡ some (get_keys_to_array two_funcs))
callstack_file_reads_example =
    callstack_file_reads two_funcs (omega arith) (omega arith, (omega arith, tt))

abbrev zeros : ℕ → ℕ
zeros i = 0

-- Blocks of 24 bytes at least, as the smallest of glibc.
abbrev pub usable : ℕ → ℕ
usable size = if ltb size 24 then 24 else size

get_data_path-send_data_path_example :
    ((send_data_path usable (codes "/tmp/ocolos/") >>= get_data_path) ≡ done (codes "/tmp/ocolos/"))
    ↔ ((12 < 24) × (12 ≤ 80))
get_data_path-send_data_path_example =
    get_data_path-send_data_path usable (codes "/tmp/ocolos/") (ground arith) (λ e. cc)
