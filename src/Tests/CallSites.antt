-- ===== src/Tests/CallSites.antt =====
-- src/extract_call_sites.cpp on a few call sites.
use ocolos_public.Prelude.{
  ℕ, arith, ◌≢◌, ◌/◌, ◌+◌, ◌≤◌, ◌≡◌, ◌↔◌, refl, List, [], ◌∷◌, codes, str_eq, Bytes, has_key,
  assign, Has, All, length, IsMap, done,
}
use ocolos_public.Utils.{split_line, is_hex, convert_str_2_long, convert_str_2_uint8}
use ocolos_public.CallSites.{
  CallSite, Sites, scan_function, is_library_call, line_words, thread_chunks, group_sites,
}
use ocolos_public.CallSites.Decode.{label, byte_text, decoded, line_words-decoded}
use ocolos_public.CallSites.Chunks.{concat, thread_chunks_cover}
use ocolos_public.CallSites.Groups.{group, Calls, group_sites-Calls}

abbrev pub no_site : CallSite
no_site = record {
  machine_code = [];
  addr = 0;
  next_addr = 0;
  belonged_func = 0;
  target_func_addr = 0;
}

-- A call of 16 at 64, in the function at 48.
abbrev pub site_64 : CallSite
site_64 = record {
  machine_code = 232 ∷ 203 ∷ 255 ∷ 255 ∷ 255 ∷ [];
  addr = 64;
  next_addr = 69;
  belonged_func = 48;
  target_func_addr = 16;
}

abbrev pub one_site : Sites
one_site = (64, site_64) ∷ []

one_site-IsMap : IsMap one_site
one_site-IsMap = unfold has_key in (refl, tt)

abbrev seven_eight : List ℕ
seven_eight = 7 ∷ 8 ∷ []

thread_chunks_cover_example :
    (length (thread_chunks seven_eight) ≡ 16)
    × (concat (thread_chunks seven_eight) ≡ seven_eight)
    × All
        (λ c. (length seven_eight / 16 ≤ length c) × (length c ≤ length seven_eight / 16 + 15))
        (thread_chunks seven_eight)
thread_chunks_cover_example = thread_chunks_cover seven_eight

group_sites-Calls_example : Has 64 (group (group_sites [] one_site) 16) ↔ Calls one_site 64 16
group_sites-Calls_example = group_sites-Calls one_site 64 16 one_site-IsMap

abbrev two_lines : List Bytes
two_lines = codes "40: e8 cb ff ff ff call 000010 <function>" ∷ codes "45: c3 ret" ∷ []

-- The two lines give the call site above.
scan_two_lines :
    scan_function (record no_site { machine_code = 0 ∷ 0 ∷ 0 ∷ 0 ∷ 0 ∷ [] }) 48 [] two_lines
    ≡ done one_site
unfolding scan_function split_line str_eq is_hex convert_str_2_long convert_str_2_uint8 assign
scan_two_lines = refl

line_words-decoded_example :
    line_words no_site 48 []
      (label 64
        ∷ byte_text 232
        ∷ byte_text 203
        ∷ byte_text 255
        ∷ byte_text 255
        ∷ byte_text 255
        ∷ codes "call"
        ∷ codes "000010"
        ∷ codes "<function>"
        ∷ [])
      (label 69 ∷ codes "c3" ∷ [])
    ≡ done (assign 64 (decoded no_site 48 64 69 232 203 255 255 255) [])
unfolding is_library_call str_eq
line_words-decoded_example =
    line_words-decoded no_site 48 64 69 232 203 255 255 255 [] (codes "000010") (codes "<function>")
      (codes "c3" ∷ []) (omega arith) (omega arith) (omega arith) (omega arith) (omega arith)
      (omega arith) (omega arith) six refl
  where
    six : length (codes "000010") ≢ 2
    six e = omega arith
