-- ===== src/CallSites/Decode.antt =====
-- One call instruction as objdump prints it, and the call site that thread_function makes of it.
use ocolos_public.Prelude.{
  ℕ, ◌+◌, ◌-◌, ◌*◌, ◌/◌, ◌%◌, ◌^◌, ◌<◌, ◌≡◌, ◌≢◌, refl, sym, ap, ◌∙◌, Bool, true, false, ◌&&◌, ◌||◌,
  List, [], ◌∷◌, ◌++◌, some, ◌==◌, Bytes, codes, str_eq, length, drop, assign, done, undefined,
  ◌>>=◌, arith, take-length_append, length-append,
}
use ocolos_public.Utils.{
  is_hex, convert_str_2_long, convert_str_2_uint8, convert_long_2_hex_string, hex_char, hex_digit,
  is_digit, is_hex_letter,
}
use ocolos_public.Utils.Numbers.{
  is_hex-colon, value, hex_digit-hex_char, convert_str_2_long-value, convert_str_2_long-hex_string,
}
use ocolos_public.Utils.Offsets.{le_value}
use ocolos_public.CallSites.{
  CallSite, Sites, is_library_call, label_addr, byte_words, uint8s, offset_text, call_info,
  call_words, line_words,
}

-- A byte as objdump prints it.
abbrev pub byte_text : ℕ → Bytes
byte_text b = hex_char (b / 16) ∷ hex_char (b % 16) ∷ []

-- The address before an instruction, with its colon.
abbrev pub label : ℕ → Bytes
label addr = convert_long_2_hex_string addr ++ codes ":"

hex_char-is_hex : (d : ℕ) → d < 16 → (is_digit (hex_char d) || is_hex_letter (hex_char d)) ≡ true
hex_char-is_hex d h = ground arith

byte_text-is_hex : (b : ℕ) → b < 256 → is_hex (byte_text b) ≡ true
unfolding is_hex
byte_text-is_hex b h =
    ground (arith, hex_char-is_hex (b / 16) (omega arith), hex_char-is_hex (b % 16) (omega arith))

uint8-byte_text : (b : ℕ) → b < 256 → convert_str_2_uint8 (byte_text b) ≡ some b
unfolding convert_str_2_uint8
uint8-byte_text b h =
    rw (hex_digit-hex_char (b / 16) (omega arith), hex_digit-hex_char (b % 16) (omega arith))
      (ap some (omega arith))

-- The four bytes of the displacement, from the last to the first, read as one number.
convert_str_2_long-byte_text :
    (b₁ b₂ b₃ b₄ : ℕ)
    → b₁ < 256
    → b₂ < 256
    → b₃ < 256
    → b₄ < 256
    → convert_str_2_long
        (offset_text (byte_text b₁ ∷ byte_text b₂ ∷ byte_text b₃ ∷ byte_text b₄ ∷ []))
      ≡ le_value (b₁ ∷ b₂ ∷ b₃ ∷ b₄ ∷ [])
unfolding offset_text
convert_str_2_long-byte_text b₁ b₂ b₃ b₄ h₁ h₂ h₃ h₄ =
    convert_str_2_long-value _ (omega (arith, number)) ∙ number
  where
    digits : ℕ → ℕ → ℕ
    digits acc b = (acc * 16 + hex_digit (hex_char (b / 16))) * 16 + hex_digit (hex_char (b % 16))

    two : (acc b : ℕ) → b < 256 → digits acc b ≡ acc * 256 + b
    two acc b h =
        rw (hex_digit-hex_char (b / 16) (omega arith), hex_digit-hex_char (b % 16) (omega arith))
          (omega arith)

    number :
        value hex_digit 16 0 (byte_text b₄ ++ (byte_text b₃ ++ (byte_text b₂ ++ byte_text b₁)))
        ≡ le_value (b₁ ∷ b₂ ∷ b₃ ∷ b₄ ∷ [])
    number =
        rw
          (
            two 0 b₄ h₄,
            two (0 * 256 + b₄) b₃ h₃,
            two ((0 * 256 + b₄) * 256 + b₃) b₂ h₂,
            two (((0 * 256 + b₄) * 256 + b₃) * 256 + b₂) b₁ h₁,
          )
          (omega arith)

label_addr-label : (addr : ℕ) → addr < 2 ^ 63 → label_addr (label addr) ≡ addr
unfolding label_addr
label_addr-label addr h =
    let s = convert_long_2_hex_string addr in
    let short : length (s ++ codes ":") - 1 ≡ length s =
      omega (arith, length-append s (codes ":")) in
    rw (short, take-length_append s (codes ":")) (convert_str_2_long-hex_string addr h)

-- The words of the line that are taken for bytes: the five of the instruction.
byte_words-call :
    (addr b₀ b₁ b₂ b₃ b₄ : ℕ) (mnemonic operand name : Bytes)
    → b₀ < 256
    → b₁ < 256
    → b₂ < 256
    → b₃ < 256
    → b₄ < 256
    → length mnemonic ≢ 2
    → length operand ≢ 2
    → length name ≢ 2
    → byte_words (
        label addr
        ∷ byte_text b₀
        ∷ byte_text b₁
        ∷ byte_text b₂
        ∷ byte_text b₃
        ∷ byte_text b₄
        ∷ mnemonic
        ∷ operand
        ∷ name
        ∷ [])
      ≡ byte_text b₀ ∷ byte_text b₁ ∷ byte_text b₂ ∷ byte_text b₃ ∷ byte_text b₄ ∷ []
unfolding byte_words
byte_words-call addr b₀ b₁ b₂ b₃ b₄ mnemonic operand name h₀ h₁ h₂ h₃ h₄ m o n =
    rw
      (
        is_hex-colon (convert_long_2_hex_string addr),
        byte_text-is_hex b₀ h₀,
        byte_text-is_hex b₁ h₁,
        byte_text-is_hex b₂ h₂,
        byte_text-is_hex b₃ h₃,
        byte_text-is_hex b₄ h₄,
        no_byte mnemonic m,
        no_byte operand o,
        no_byte name n,
        and_false (length (label addr) == 2),
      )
      refl
  where
    and_false : (b : Bool) → (b && false) ≡ false
    and_false b = ground arith

    no_byte : (w : Bytes) → length w ≢ 2 → (length w == 2) ≡ false
    no_byte w h = ground arith

-- The call site of a call at `addr` with these five bytes, in a function, before `next`: the
-- displacement, from the next instruction on, leads to the target, modulo 2^32.
abbrev pub decoded : CallSite → ℕ → ℕ → ℕ → ℕ → ℕ → ℕ → ℕ → ℕ → CallSite
decoded fresh func addr next b₀ b₁ b₂ b₃ b₄ = record {
  machine_code = b₀ ∷ b₁ ∷ b₂ ∷ b₃ ∷ b₄ ∷ drop 5 fresh.machine_code;
  addr = addr;
  next_addr = next;
  belonged_func = func;
  target_func_addr = (le_value (b₁ ∷ b₂ ∷ b₃ ∷ b₄ ∷ []) + next) % 2 ^ 32;
}

uint8s-byte_text : (b : ℕ) (ws : List Bytes) → b < 256 → uint8s (byte_text b ∷ ws) ≡ b ∷ uint8s ws
unfolding uint8s
uint8s-byte_text b ws h = rw (uint8-byte_text b h, uint8s) refl

uint8s-five :
    (b₀ b₁ b₂ b₃ b₄ : ℕ)
    → b₀ < 256
    → b₁ < 256
    → b₂ < 256
    → b₃ < 256
    → b₄ < 256
    → uint8s (byte_text b₀ ∷ byte_text b₁ ∷ byte_text b₂ ∷ byte_text b₃ ∷ byte_text b₄ ∷ [])
      ≡ b₀ ∷ b₁ ∷ b₂ ∷ b₃ ∷ b₄ ∷ []
uint8s-five b₀ b₁ b₂ b₃ b₄ h₀ h₁ h₂ h₃ h₄ =
    rw
      (
        uint8s-byte_text b₀ _ h₀,
        uint8s-byte_text b₁ _ h₁,
        uint8s-byte_text b₂ _ h₂,
        uint8s-byte_text b₃ _ h₃,
        uint8s-byte_text b₄ _ h₄,
      )
      (unfold uint8s in refl)

call_info-decoded :
    (fresh : CallSite) (func addr next b₀ b₁ b₂ b₃ b₄ : ℕ)
    → addr < 2 ^ 63
    → next < 2 ^ 63
    → b₀ < 256
    → b₁ < 256
    → b₂ < 256
    → b₃ < 256
    → b₄ < 256
    → call_info fresh func
        (label addr)
        (label next)
        (byte_text b₀ ∷ byte_text b₁ ∷ byte_text b₂ ∷ byte_text b₃ ∷ byte_text b₄ ∷ [])
      ≡ done (decoded fresh func addr next b₀ b₁ b₂ b₃ b₄)
unfolding call_info
call_info-decoded fresh func addr next b₀ b₁ b₂ b₃ b₄ ha hn h₀ h₁ h₂ h₃ h₄ =
    rw
      (
        label_addr-label addr ha,
        label_addr-label next hn,
        uint8s-five b₀ b₁ b₂ b₃ b₄ h₀ h₁ h₂ h₃ h₄,
        convert_str_2_long-byte_text b₁ b₂ b₃ b₄ h₁ h₂ h₃ h₄,
      )
      refl

-- A name that is no library call has five chars at least.
is_library_call-length : (name : Bytes) → is_library_call name ≡ done false → length name ≢ 2
unfolding is_library_call
is_library_call-length name e two = clash (sym (rw two refl) ∙ e)
  where
    clash : undefined ≢ done false
    clash h = cc

-- The line that objdump prints for a call with five bytes gives its call site: the bytes, the
-- addresses before it and before the next instruction, the function, and the target, which is the
-- next instruction's address plus the displacement of the four last bytes, modulo 2^32. The
-- operand must not have two chars, which may be taken for a sixth byte, and the name in brackets
-- is not that of a library function and has five chars at least.
pub line_words-decoded :
    (fresh : CallSite) (func addr next b₀ b₁ b₂ b₃ b₄ : ℕ) (sites : Sites) (operand name : Bytes)
    (next_words : List Bytes)
    → addr < 2 ^ 63
    → next < 2 ^ 63
    → b₀ < 256
    → b₁ < 256
    → b₂ < 256
    → b₃ < 256
    → b₄ < 256
    → length operand ≢ 2
    → is_library_call name ≡ done false
    → line_words fresh func sites
        (label addr
          ∷ byte_text b₀
          ∷ byte_text b₁
          ∷ byte_text b₂
          ∷ byte_text b₃
          ∷ byte_text b₄
          ∷ codes "call"
          ∷ operand
          ∷ name
          ∷ [])
        (label next ∷ next_words)
      ≡ done (assign addr (decoded fresh func addr next b₀ b₁ b₂ b₃ b₄) sites)
unfolding line_words call_words str_eq
line_words-decoded fresh func addr next b₀ b₁ b₂ b₃ b₄ sites operand name next_words ha hn h₀ h₁ h₂
      h₃ h₄ o n =
    rw
      (
        n,
        byte_words-call addr b₀ b₁ b₂ b₃ b₄ (codes "call") operand name h₀ h₁ h₂ h₃ h₄ four o
            (is_library_call-length name n),
      )
      (ap (λ m. m >>= λ info. done (assign info.addr info sites))
        (call_info-decoded fresh func addr next b₀ b₁ b₂ b₃ b₄ ha hn h₀ h₁ h₂ h₃ h₄))
  where
    four : length (codes "call") ≢ 2
    four e = omega arith
