-- ===== src/Tests/Round.antt =====
-- One round on a binary with two functions: that at 16 is moved to 4096 and on a stack, and that at 64
-- is replaced in place.
use ocolos_public.Prelude.{ℕ, true, false, List, [], ◌∷◌, some, Bytes, codes}
use ocolos_public.Tracer.{Plan}
use ocolos_public.Elf.{Symbol, Binary}
use ocolos_public.Round.{Files}

abbrev junk : ℕ → ℕ
junk i = 0

abbrev two_symbols : List Bytes
two_symbols = codes "0010 0010 T f\n" ∷ codes "0040 0010 T g\n" ∷ []

abbrev a_plan : Plan
a_plan = record {
  addr_bolted_func = 4096 ∷ [];
  addr_unmoved_func_not_in_call_stack = 64 ∷ [];
  call_sites_bin = [];
  callstack_func = 1 ∷ 0 ∷ 0 ∷ 0 ∷ 0 ∷ 0 ∷ 0 ∷ 0 ∷ 16 ∷ 0 ∷ 0 ∷ 0 ∷ 0 ∷ 0 ∷ 0 ∷ 0 ∷ [];
}

abbrev moved_symbol : Symbol
moved_symbol = record {
  name = some (codes "f");
  address = 4096;
  size = 2;
  is_text = true;
  is_undefined = false;
  section = some 1;
}

abbrev unmoved_symbol : Symbol
unmoved_symbol = record {
  name = some (codes "g");
  address = 64;
  size = 2;
  is_text = true;
  is_undefined = false;
  section = some 0;
}

abbrev bolted : Binary
bolted = record {
  sections = (64, 2) ∷ (4096, 4) ∷ [];
  symbols = moved_symbol ∷ unmoved_symbol ∷ [];
  dynamic_symbols = [];
  file_bytes = 9 ∷ 9 ∷ 85 ∷ 195 ∷ 86 ∷ 196 ∷ [];
}

-- One record of two bytes.
abbrev files : Files
files = record {
  bolted_function_bin =
      0 ∷ 16 ∷ 0 ∷ 0 ∷ 0 ∷ 0 ∷ 0 ∷ 0 ∷ 2 ∷ 0 ∷ 0 ∷ 0 ∷ 0 ∷ 0 ∷ 0 ∷ 0 ∷ 86 ∷ 196 ∷ [];
  call_sites_bin = [];
  v_table_bin = [];
  unmoved_func_bin = 64 ∷ 0 ∷ 0 ∷ 0 ∷ 0 ∷ 0 ∷ 0 ∷ 0 ∷ 2 ∷ 0 ∷ 0 ∷ 0 ∷ 0 ∷ 0 ∷ 0 ∷ 0 ∷ 85 ∷ 195 ∷ [];
}
