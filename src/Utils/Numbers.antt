-- ===== src/Utils/Numbers.antt =====
-- Numbers as text: what is printed is read back.
use ocolos_public.Prelude.{
  ℕ, zero, suc, ◌+◌, ◌*◌, ◌/◌, ◌%◌, ◌^◌, ◌≤◌, ◌<◌, ◌≡◌, refl, ◌∙◌, ◌↔◌, Bool, true, false, codes,
  inl, inr, [], ◌∷◌, ◌++◌, ◌||◌, arith, ltb, Bool-cases, Bytes, some, ◌≢◌, All, All-append, ltb→lt,
}
use mathlib.Core.List.{concat-ne-nil}
use native.Mathlib.Nat.{div-lt_self, mod-lt, div-add-mod'}
use ocolos_public.Utils.{
  is_num, is_hex, is_hex_chars, read_digits, dec_digit, hex_digit, convert_str_2_int,
  convert_str_2_long, convert_str_2_uint8, print_digits, dec_char, hex_char, to_string,
  convert_long_2_hex_string, is_digit, is_hex_letter,
}

-- The number that a text of digits stands for, with no bound.
abbrev pub value : (ℕ → ℕ) → ℕ → ℕ → Bytes → ℕ
value digit base acc [] = acc
value digit base acc (c ∷ s) = value digit base (acc * base + digit c) s

module _ (digit : ℕ → ℕ) (base : ℕ) (base_pos : 1 < base) where
  value-ge : (acc : ℕ) (s : Bytes) → acc ≤ value digit base acc s
  value-ge acc [] = omega arith
  value-ge acc (c ∷ s) =
      let step : acc ≤ acc * base + digit c = grind arith in
      omega (arith, value-ge (acc * base + digit c) s, step)

  value-append :
      (acc : ℕ) (s t : Bytes)
      → value digit base acc (s ++ t) ≡ value digit base (value digit base acc s) t
  value-append acc [] t = refl
  value-append acc (c ∷ s) t = value-append (acc * base + digit c) s t

  -- Where the number fits, the wrapping loop computes it.
  read_digits-value :
      (acc : ℕ) (c : ℕ) (s : Bytes)
      → value digit base acc (c ∷ s) < 2 ^ 64
      → read_digits digit base (acc * base) (c ∷ s) ≡ value digit base acc (c ∷ s)
  unfolding read_digits
  read_digits-value acc c [] h = omega arith
  read_digits-value acc c (d ∷ s) h =
      let next : ℕ = acc * base + digit c in
      let low = value-ge (next * base + digit d) s in
      let grows : next ≤ next * base = grind arith in
      rw (small next (omega (arith, low, grows)), small (next * base) (omega (arith, low)))
        (read_digits-value next d s h)
    where
      small : (n : ℕ) → n < 2 ^ 64 → n % 2 ^ 64 ≡ n
      small n k = omega arith

  module _ (char : ℕ → ℕ) (reads : (d : ℕ) → d < base → digit (char d) ≡ d) where
    value-print_digits :
        (fuel n : ℕ) → n ≤ fuel → value digit base 0 (print_digits char base fuel n) ≡ n
    unfolding print_digits
    value-print_digits zero n h =
        let e : n ≡ 0 = omega arith in
        let m : 0 % base ≡ 0 = omega arith in rw (e, m) (omega (arith, reads 0 (omega arith)))
    value-print_digits (suc fuel) n h = elim (Bool-cases (ltb n base)) [
      | inl small ↦ rw small (omega (arith, reads n (ltb→lt n base small)))
      | inr large ↦
          let wide : base ≤ n = ground arith in
          let shorter : n / base < n = div-lt_self (omega arith) base_pos in
          let front = value-print_digits fuel (n / base) (omega arith) in
          let last = reads (n % base) (mod-lt n (omega arith)) in
          rw large (
            value-append 0 (print_digits char base fuel (n / base)) (char (n % base) ∷ [])
            ∙ rw (front, last) (div-add-mod' n base))
    ]

    -- Printing and then reading with the wrapping loop gives the number back.
    read_digits-print_digits :
        (n : ℕ) → n < 2 ^ 64 → read_digits digit base 0 (print_digits char base n n) ≡ n
    read_digits-print_digits n h =
        from_value (print_digits char base n n) (value-print_digits n n (omega arith))
      where
        from_value : (s : Bytes) → value digit base 0 s ≡ n → read_digits digit base 0 s ≡ n
        from_value [] e = unfold read_digits in e
        from_value (c ∷ s) e =
            let none_yet : 0 * base ≡ 0 = omega arith in
            rw none_yet at (read_digits-value 0 c s (omega arith) ∙ e)

dec_digit-dec_char : (d : ℕ) → d < 10 → dec_digit (dec_char d) ≡ d
dec_digit-dec_char d h = ground arith

pub hex_digit-hex_char : (d : ℕ) → d < 16 → hex_digit (hex_char d) ≡ d
hex_digit-hex_char d h = ground arith

-- The address that the tracee prints with to_string is the number that convert_str_2_int reads, for
-- every number from 0 to 2^63 - 1.
pub convert_str_2_int-to_string : (n : ℕ) → n < 2 ^ 63 → convert_str_2_int (to_string n) ≡ n
unfolding convert_str_2_int to_string
convert_str_2_int-to_string n h =
    read_digits-print_digits dec_digit 10 (omega arith) dec_char dec_digit-dec_char n (omega arith)

-- A number from 0 to 2^63 - 1 that convert_long_2_hex_string prints in hexadecimal is read back by
-- convert_str_2_long.
pub convert_str_2_long-hex_string :
    (n : ℕ) → n < 2 ^ 63 → convert_str_2_long (convert_long_2_hex_string n) ≡ n
unfolding convert_str_2_long convert_long_2_hex_string
convert_str_2_long-hex_string n h =
    read_digits-print_digits hex_digit 16 (omega arith) hex_char hex_digit-hex_char n (omega arith)

-- Where the number of a text fits in 64 bits, convert_str_2_long gives it.
pub convert_str_2_long-value :
    (s : Bytes) → value hex_digit 16 0 s < 2 ^ 64 → convert_str_2_long s ≡ value hex_digit 16 0 s
unfolding convert_str_2_long
convert_str_2_long-value [] h = unfold read_digits in refl
convert_str_2_long-value (c ∷ s) h = read_digits-value hex_digit 16 (omega arith) 0 c s h

-- The chars of a text that all satisfy a test.
abbrev Chars : (ℕ → Bool) → Bytes → Type 0
Chars test s = All (λ c. test c ≡ true) s

print_digits-Chars :
    (char : ℕ → ℕ) (base : ℕ) (test : ℕ → Bool)
    → 1 < base
    → ((d : ℕ) → d < base → test (char d) ≡ true)
    → (fuel n : ℕ) → Chars test (print_digits char base fuel n)
unfolding print_digits
print_digits-Chars char base test pos ok zero n = (ok (n % base) (mod-lt n (omega arith)), tt)
print_digits-Chars char base test pos ok (suc fuel) n = elim (Bool-cases (ltb n base)) [
  | inl small ↦ rw small (ok n (ltb→lt n base small), tt)
  | inr large ↦ rw large (
      All-append _ _ _ (print_digits-Chars char base test pos ok fuel (n / base))
        (ok (n % base) (mod-lt n (omega arith)), tt))
]

print_digits-ne-nil : (char : ℕ → ℕ) (base fuel n : ℕ) → print_digits char base fuel n ≢ []
unfolding print_digits
print_digits-ne-nil char base zero n e = cc
print_digits-ne-nil char base (suc fuel) n e =
    let front = print_digits char base fuel (n / base) in
    ground (arith, concat-ne-nil (char (n % base)) front)

is_num_iff : (s : Bytes) → (is_num s ≡ true) ↔ Chars is_digit s
unfolding is_num
is_num_iff [] = ground arith
is_num_iff (c ∷ s) = ground (arith, is_num_iff s)

is_hex_chars_iff :
    (s : Bytes) → (is_hex_chars s ≡ true) ↔ Chars (λ c. is_digit c || is_hex_letter c) s
unfolding is_hex_chars
is_hex_chars_iff [] = ground arith
is_hex_chars_iff (c ∷ s) = ground (arith, is_hex_chars_iff s)

is_hex_iff : (s : Bytes) → s ≢ [] → Chars (λ c. is_digit c || is_hex_letter c) s → is_hex s ≡ true
unfolding is_hex
is_hex_iff [] ne h = absurd (ne refl)
is_hex_iff (c ∷ s) ne h = (is_hex_chars_iff (c ∷ s)).1 h

-- What to_string prints passes is_num, and what convert_long_2_hex_string prints passes is_hex,
-- for every number.
pub printed_is_num :
    (n : ℕ) → (is_num (to_string n) ≡ true) × (is_hex (convert_long_2_hex_string n) ≡ true)
unfolding to_string convert_long_2_hex_string
printed_is_num n = (
  (is_num_iff _).1 (print_digits-Chars dec_char 10 _ (omega arith) (λ d h. ground arith) n n),
  is_hex_iff _ (print_digits-ne-nil hex_char 16 n n)
      (print_digits-Chars hex_char 16 _ (omega arith) (λ d h. ground arith) n n),
)

-- On two hexadecimal digits convert_str_2_uint8 gives the byte that convert_str_2_long reads there.
pub convert_str_2_uint8-long :
    (c d : ℕ)
    → is_hex (c ∷ d ∷ []) ≡ true
    → convert_str_2_uint8 (c ∷ d ∷ []) ≡ some (convert_str_2_long (c ∷ d ∷ []))
unfolding is_hex convert_str_2_uint8 convert_str_2_long
convert_str_2_uint8-long c d h = ground arith

is_hex_chars-colon : (s : Bytes) → is_hex_chars (s ++ codes ":") ≡ false
unfolding is_hex_chars
is_hex_chars-colon [] = refl
is_hex_chars-colon (c ∷ s) = ground (arith, is_hex_chars-colon s)

-- A word with a colon at its end is not hexadecimal.
pub is_hex-colon : (s : Bytes) → is_hex (s ++ codes ":") ≡ false
unfolding is_hex
is_hex-colon [] = is_hex_chars-colon []
is_hex-colon (c ∷ s) = is_hex_chars-colon (c ∷ s)
