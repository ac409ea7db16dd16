-- ===== src/Tests/Utils.antt =====
-- src/utils.cpp on small texts and numbers.
use ocolos_public.Prelude.{
  undefined, ◌≡◌, ◌↔◌, ◌^◌, ◌%◌, refl, [], ◌∷◌, codes, negsuc, wrap_ℤ, arith,
}
use ocolos_public.Utils.{
  convert_str_2_int, convert_str_2_long, convert_long_2_vec_uint8, to_string,
  convert_long_2_hex_string, split_line, split, split_str_2_char_array,
}
use ocolos_public.Utils.Numbers.{convert_str_2_int-to_string, convert_str_2_long-hex_string}
use ocolos_public.Utils.Offsets.{le_value, le_value-negsuc}
use ocolos_public.Utils.Arguments.{split_str_2_char_array_undefined}
use ocolos_public.Utils.Words.{Laid, split_line-Laid_iff, join, split-join}

convert_str_2_int-to_string_example : convert_str_2_int (to_string 4096) ≡ 4096
convert_str_2_int-to_string_example = convert_str_2_int-to_string 4096 (omega arith)

convert_str_2_long-hex_string_example : convert_str_2_long (convert_long_2_hex_string 48879) ≡ 48879
convert_str_2_long-hex_string_example = convert_str_2_long-hex_string 48879 (omega arith)

le_value-negsuc_example :
    (le_value (convert_long_2_vec_uint8 (negsuc 4095)) ≡ wrap_ℤ (2 ^ 32) (negsuc 4095))
    ↔ (4096 % 2 ^ 24 ≡ 0)
le_value-negsuc_example = le_value-negsuc 4095

-- A call 4096 bytes back gets the displacement 0x0000f000, not 0xfffff000.
back_4096 : convert_long_2_vec_uint8 (negsuc 4095) ≡ 0 ∷ 240 ∷ 0 ∷ 0 ∷ []
unfolding convert_long_2_vec_uint8
back_4096 = refl

split_line-Laid_iff_example :
    (split_line (codes " 4a0 T\n") ≡ codes "4a0" ∷ codes "T" ∷ [])
    ↔ Laid (codes " 4a0 T\n") (codes "4a0" ∷ codes "T" ∷ [])
split_line-Laid_iff_example = split_line-Laid_iff (codes " 4a0 T\n") (codes "4a0" ∷ codes "T" ∷ [])

split-join_example :
    split (join 44 (codes "a" ∷ codes "" ∷ codes "bc" ∷ [])) 44
    ≡ codes "a" ∷ codes "" ∷ codes "bc" ∷ []
split-join_example = split-join 44 (codes "a" ∷ codes "" ∷ codes "bc" ∷ []) (ground arith)

split_str_2_char_array_undefined_example : split_str_2_char_array (codes "perf record") ≡ undefined
split_str_2_char_array_undefined_example = split_str_2_char_array_undefined (codes "perf record")
