-- ===== src/Utils.antt =====
-- src/utils.cpp: the conversions between text, numbers and bytes, and the splitting of lines.
-- A `long` is its 64-bit pattern, a `char` its byte; arithmetic on them wraps.
pub mod Numbers
pub mod Offsets
pub mod Words
pub mod Arguments
use ocolos_public.Prelude.{
  ℕ, zero, suc, ◌+◌, ◌-◌, ◌*◌, ◌/◌, ◌%◌, ◌^◌, Bool, true, false, not, ◌&&◌, ◌||◌, List, [], ◌∷◌,
  ◌++◌, leb, ltb, ◌==◌, if◌then◌else◌, Bytes, ℤ, pos, negsuc, tdiv, trem, wrap_ℤ, get_elem?, Option,
  none, some, length, codes, Outcome, done, undefined, ◌>>=◌, ◌>>◌,
}

abbrev pub within : ℕ → ℕ → ℕ → Bool
within lo hi c = leb lo c && leb c hi

-- `word[i]>='0' && word[i]<='9'` and `>='a' && <='f'`; a byte above 127 is a negative char.
abbrev pub is_digit : ℕ → Bool
is_digit c = within b'0' b'9' c

abbrev pub is_hex_letter : ℕ → Bool
is_hex_letter c = within b'a' b'f' c

-- A char widened to a long.
abbrev pub char_value : ℕ → ℕ
char_value c = if ltb c 128 then c else c + (2 ^ 64 - 256)

unfoldable pub is_num : Bytes → Bool
is_num [] = true
is_num (c ∷ s) = is_digit c && is_num s

is_hex_chars : Bytes → Bool
is_hex_chars [] = true
is_hex_chars (c ∷ s) = (is_digit c || is_hex_letter c) && is_hex_chars s

unfoldable pub is_hex : Bytes → Bool
unfolding is_hex_chars
is_hex [] = false
is_hex (c ∷ s) = is_hex_chars (c ∷ s)

-- The loop of both conversions: add a digit, and multiply unless it was the last one.
unfoldable pub read_digits : (ℕ → ℕ) → ℕ → ℕ → Bytes → ℕ
read_digits digit base result [] = result
read_digits digit base result (c ∷ []) = (result + digit c) % 2 ^ 64
read_digits digit base result (c ∷ d ∷ s) =
    read_digits digit base ((result + digit c) % 2 ^ 64 * base % 2 ^ 64) (d ∷ s)

-- `str[i] - '0'`, whatever the char is.
abbrev pub dec_digit : ℕ → ℕ
dec_digit c = (char_value c + (2 ^ 64 - 48)) % 2 ^ 64

-- What the two tests add; a char that is no hexadecimal digit adds nothing.
abbrev pub hex_digit : ℕ → ℕ
hex_digit c = if is_hex_letter c then c - b'a' + 10 else if is_digit c then c - b'0' else 0

unfoldable pub convert_str_2_int : Bytes → ℕ
unfolding read_digits
convert_str_2_int = read_digits dec_digit 10 0

unfoldable pub convert_str_2_long : Bytes → ℕ
unfolding read_digits
convert_str_2_long = read_digits hex_digit 16 0

-- Reads `str[0]` and `str[1]`; `str[size()]` is the NUL byte, and the byte behind it is none.
unfoldable pub convert_str_2_uint8 : Bytes → Option ℕ
convert_str_2_uint8 [] = none
convert_str_2_uint8 (c ∷ []) = some (hex_digit c * 16 % 256)
convert_str_2_uint8 (c ∷ d ∷ s) = some ((hex_digit c * 16 % 256 + hex_digit d) % 256)

-- The first loop: one quotient a round, most significant first, narrowed to a byte.
quotient_bytes : ℕ → ℤ → ℕ → Bytes
quotient_bytes zero input divisor = []
quotient_bytes (suc rounds) input divisor =
    wrap_ℤ 256 (tdiv input divisor) ∷ quotient_bytes rounds (trem input divisor) (divisor / 256)

-- The second loop pushes `tmp[3]` down to `tmp[0]`.
backwards : Bytes → Bytes
backwards [] = []
backwards (b ∷ bs) = backwards bs ++ (b ∷ [])

unfoldable pub convert_long_2_vec_uint8 : ℤ → Bytes
unfolding quotient_bytes backwards
convert_long_2_vec_uint8 input = backwards (quotient_bytes 4 input (256 * 256 * 256))

-- The digits of a number, as the standard library prints them; the number itself is fuel enough.
unfoldable pub print_digits : (ℕ → ℕ) → ℕ → ℕ → ℕ → Bytes
print_digits char base zero n = char (n % base) ∷ []
print_digits char base (suc fuel) n =
    let front = print_digits char base fuel (n / base) in
    if ltb n base then char n ∷ [] else front ++ (char (n % base) ∷ [])

abbrev pub dec_char : ℕ → ℕ
dec_char d = d + b'0'

abbrev pub hex_char : ℕ → ℕ
hex_char d = if ltb d 10 then d + b'0' else d - 10 + b'a'

-- std::to_string of a non-negative long.
unfoldable pub to_string : ℕ → Bytes
unfolding print_digits
to_string n = print_digits dec_char 10 n n

-- `stream << std::hex << num` prints the 64-bit pattern.
unfoldable pub convert_long_2_hex_string : ℕ → Bytes
unfolding print_digits
convert_long_2_hex_string num = print_digits hex_char 16 num num

-- isspace: space, \t, \n, \v, \f, \r.
abbrev pub is_space : ℕ → Bool
is_space c = c == b' ' || within 9 13 c

-- `ss >> tmp`: a word ends at white space or at the end of the text, and is never empty.
unfoldable pub flush : Bytes → List Bytes → List Bytes
flush [] words = words
flush (c ∷ word) words = (c ∷ word) ∷ words

unfoldable pub words_from : Bytes → Bytes → List Bytes
unfolding flush
words_from tmp [] = flush tmp []
words_from tmp (c ∷ s) = elim (is_space c) [
  | true ↦ flush tmp (words_from [] s)
  | false ↦ words_from (tmp ++ (c ∷ [])) s
]

unfoldable pub split_line : Bytes → List Bytes
unfolding words_from
split_line = words_from []

-- `getline(ss, item, delim)`: a delimiter ends an item; at the end of the text a last item is
-- read only if it has a character.
unfoldable pub items_from : ℕ → Bytes → Bytes → List Bytes
unfolding flush
items_from delim item [] = flush item []
items_from delim item (c ∷ s) = elim (c == delim) [
  | true ↦ item ∷ items_from delim [] s
  | false ↦ items_from delim (item ++ (c ∷ [])) s
]

unfoldable pub split : Bytes → ℕ → List Bytes
unfolding items_from
split s delim = items_from delim [] s

-- `words[i] = ...` for an array of pointers that `allocated` bytes were allocated for.
unfoldable pub set_pointer : ℕ → ℕ → Outcome (Unit {0})
set_pointer allocated i = if leb (8 * i + 8) allocated then done tt else undefined

-- The loop from `i` on: each word is copied to an array of its own, with a NUL behind it.
unfoldable pub set_words : ℕ → ℕ → List Bytes → Outcome (List Bytes)
unfolding set_pointer
set_words allocated i [] = done []
set_words allocated i (word ∷ word_vec) = do
  set_pointer allocated i
  words ← set_words allocated (i + 1) word_vec
  done ((word ++ (0 ∷ [])) ∷ words)

-- split_str_2_char_array: the strings that the array's pointers lead to, before its last one, NULL.
-- `sizeof(char*) * word_vec.size() + 1` bytes are allocated for the pointers.
unfoldable pub split_str_2_char_array : Bytes → Outcome (List Bytes)
unfolding set_words set_pointer
split_str_2_char_array str =
    let word_vec = split_line str in
    let allocated = 8 * length word_vec + 1 in
    do words ← set_words allocated 0 word_vec; set_pointer allocated (length word_vec); done words
