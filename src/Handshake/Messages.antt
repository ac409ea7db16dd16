-- ===== src/Handshake/Messages.antt =====
-- What is sent is received, up to the sizes of the reads.
use ocolos_public.Prelude.{
  ℕ, zero, suc, ◌+◌, ◌-◌, ◌*◌, ◌/◌, ◌%◌, ◌^◌, ◌≤◌, ◌<◌, ◌≡◌, ◌≢◌, refl, ap, ◌∙◌, ◌↔◌, inl, inr,
  false, ltb, ◌==◌, Bool-cases, [], ◌∷◌, ◌++◌, Bytes, length, take, length-take, length-append, All,
  All-append, true, done, undefined, Outcome, ◌>>=◌, arith,
}
use ocolos_public.Utils.{to_string, print_digits, dec_char}
use ocolos_public.Utils.Numbers.{convert_str_2_int-to_string}
use ocolos_public.Tracee.{fill}
use ocolos_public.Handshake.{
  c_string, send, before_main, get_lib_addr, send_data_path, get_data_path, copy_and_send, strcpy,
}

-- No char of the text is NUL.
abbrev pub HasNoNul : Bytes → Type 0
HasNoNul s = All (λ c. (c == 0) ≡ false) s

c_string-HasNoNul : (s rest : Bytes) → HasNoNul s → c_string (s ++ (0 ∷ rest)) ≡ done s
unfolding c_string
c_string-HasNoNul [] rest h = refl
c_string-HasNoNul (c ∷ s) rest (h, hs) = rw (h, c_string-HasNoNul s rest hs) refl

pub take-all : (n : ℕ) (s : Bytes) → length s ≤ n → take n s ≡ s
take-all zero [] h = refl
take-all zero (c ∷ s) h = absurd (omega arith)
take-all (suc n) [] h = refl
take-all (suc n) (c ∷ s) h = ap (◌∷◌ c) (take-all n s (omega arith))

-- The buffer behind a text that does not fill it starts with the next junk byte.
fill-pos : (junk : ℕ → ℕ) (i n : ℕ) → 0 < n → fill junk i n ≡ junk i ∷ fill junk (i + 1) (n - 1)
unfolding fill
fill-pos junk i zero h = absurd (omega arith)
fill-pos junk i (suc n) h = let less : suc n - 1 ≡ n = omega arith in rw less refl

-- The first number that takes k + 2 digits.
abbrev ten : ℕ → ℕ
ten zero = 10
ten (suc k) = 10 * ten k

print_digits-length : (k fuel n : ℕ) → n < ten k → length (print_digits dec_char 10 fuel n) ≤ suc k
unfolding print_digits
print_digits-length k zero n h = omega arith
print_digits-length zero (suc fuel) n h = elim (Bool-cases (ltb n 10)) [
  | inl small ↦ rw small (omega arith)
  | inr large ↦ absurd (ground arith)
]
print_digits-length (suc k) (suc fuel) n h = elim (Bool-cases (ltb n 10)) [
  | inl small ↦ rw small (omega arith)
  | inr large ↦ rw large (
      omega (
        arith,
        length-append (print_digits dec_char 10 fuel (n / 10)) (dec_char (n % 10) ∷ []),
        print_digits-length k fuel (n / 10) (omega arith),
      ))
]

pub to_string-length : (n : ℕ) → n < 2 ^ 63 → length (to_string n) ≤ 19
unfolding to_string
to_string-length n h = print_digits-length 18 n n (omega arith)

print_digits-HasNoNul : (fuel n : ℕ) → HasNoNul (print_digits dec_char 10 fuel n)
unfolding print_digits
print_digits-HasNoNul zero n = (ground arith, tt)
print_digits-HasNoNul (suc fuel) n = elim (Bool-cases (ltb n 10)) [
  | inl small ↦ rw small (ground arith, tt)
  | inr large ↦ rw large (All-append _ _ _ (print_digits-HasNoNul fuel (n / 10)) (ground arith, tt))
]

print_digits-some : (fuel n : ℕ) → 0 < length (print_digits dec_char 10 fuel n)
unfolding print_digits
print_digits-some zero n = omega arith
print_digits-some (suc fuel) n = elim (Bool-cases (ltb n 10)) [
  | inl small ↦ rw small (omega arith)
  | inr large ↦ rw large (
      omega
        (arith, length-append (print_digits dec_char 10 fuel (n / 10)) (dec_char (n % 10) ∷ [])))
]

send-some : (s : Bytes) → 0 < length s → send s ≡ done s
unfolding send
send-some [] h = absurd (omega arith)
send-some (c ∷ s) h = refl

-- A text that is shorter than the buffer, and has no NUL, is read from it if a NUL follows.
buffer-text :
    (junk : ℕ → ℕ) (s : Bytes) (size : ℕ)
    → length s < size
    → junk (length s) ≡ 0
    → HasNoNul s
    → c_string (s ++ fill junk (length s) (size - length s)) ≡ done s
buffer-text junk s size h zeroed clean =
    rw (fill-pos junk (length s) (size - length s) (omega arith), zeroed)
      (c_string-HasNoNul s _ clean)

pub to_string-some : (n : ℕ) → 0 < length (to_string n)
unfolding to_string
to_string-some n = print_digits-some n n

to_string-HasNoNul : (n : ℕ) → HasNoNul (to_string n)
unfolding to_string
to_string-HasNoNul n = print_digits-HasNoNul n n

pub get_lib_addr-to_string :
    (junk : ℕ → ℕ) (addr : ℕ)
    → addr < 2 ^ 63
    → junk (length (to_string addr)) ≡ 0
    → get_lib_addr junk (to_string addr) ≡ done addr
unfolding get_lib_addr
get_lib_addr-to_string junk addr h zeroed =
    let text = to_string addr in
    let short = to_string-length addr h in
    let whole = take-all 50 text (omega (arith, short)) in
    rw whole (
      rw (buffer-text junk text 100 (omega (arith, short)) zeroed (to_string-HasNoNul addr))
        (ap done (convert_str_2_int-to_string addr h)))

-- A text that fits into its block, with its NUL, is sent.
copy_and_send-fits :
    (block : ℕ → ℕ) (s : Bytes) → length s < block (length s) → copy_and_send block s ≡ send s
unfolding copy_and_send strcpy
copy_and_send-fits block s h =
    let fits : ltb (length s) (block (length s)) ≡ true = ground arith in rw fits refl

copy_and_send_undefined :
    (block : ℕ → ℕ) (s : Bytes)
    → ltb (length s) (block (length s)) ≡ false
    → copy_and_send block s ≡ undefined
unfolding copy_and_send strcpy
copy_and_send_undefined block s h = rw h refl

-- The tracer gets the address of insert_machine_code that the library sends, for every positive
-- long, if the byte that malloc left behind the text in the tracer's buffer is 0, and the library's
-- buffer has room for the NUL.
pub get_lib_addr-before_main :
    (block junk : ℕ → ℕ) (addr : ℕ)
    → addr < 2 ^ 63
    → length (to_string addr) < block (length (to_string addr))
    → junk (length (to_string addr)) ≡ 0
    → (before_main block addr >>= get_lib_addr junk) ≡ done addr
unfolding before_main
get_lib_addr-before_main block junk addr h room zeroed =
    rw
      (
        copy_and_send-fits block (to_string addr) room,
        send-some (to_string addr) (to_string-some addr),
      )
      (get_lib_addr-to_string junk addr h zeroed)

take-HasNoNul : (n : ℕ) (s : Bytes) → HasNoNul s → HasNoNul (take n s)
take-HasNoNul zero s h = tt
take-HasNoNul (suc n) [] h = tt
take-HasNoNul (suc n) (c ∷ s) (h, hs) = (h, take-HasNoNul n s hs)

-- The library gets the first 80 bytes of the path.
get_data_path-take :
    (path : Bytes) → HasNoNul path → path ≢ [] → (send path >>= get_data_path) ≡ done (take 80 path)
unfolding get_data_path send
get_data_path-take [] clean ne = absurd (ne refl)
get_data_path-take (c ∷ s) clean ne =
    let received = take 80 (c ∷ s) in
    let short : length received < 500 = omega (arith, length-take 80 (c ∷ s)) in
    let some_bytes : (length received == 0) ≡ false = ground arith in
    rw (some_bytes, buffer-text (λ i. 0) received 500 short refl (take-HasNoNul 80 (c ∷ s) clean))
      refl

-- A message that is read whole.
pub get_data_path-whole :
    (c : ℕ) (s : Bytes)
    → HasNoNul (c ∷ s)
    → length (c ∷ s) ≤ 80
    → get_data_path (c ∷ s) ≡ done (c ∷ s)
unfolding send
get_data_path-whole c s clean short =
    get_data_path-take (c ∷ s) clean (λ e. cc) ∙ ap done (take-all 80 (c ∷ s) short)

-- The library gets the path of the data that the tracer sends exactly when the path has 80 bytes at
-- most and there is room for one byte more than the path has in the block that malloc gives for the
-- path's length (so never, if a block has no more bytes than were asked for). This is for every path
-- that is not empty and has no NUL.
pub get_data_path-send_data_path :
    (block : ℕ → ℕ) (path : Bytes)
    → HasNoNul path
    → path ≢ []
    → ((send_data_path block path >>= get_data_path) ≡ done path)
      ↔ ((length path < block (length path)) × (length path ≤ 80))
unfolding send_data_path
get_data_path-send_data_path block path clean ne =
    elim (Bool-cases (ltb (length path) (block (length path)))) [
      | inl room ↦ rw (copy_and_send-fits block path (ground arith)) (
        (λ e.
            let same : take 80 path ≡ path = cc (e, get_data_path-take path clean ne) in
            (ground arith, omega (arith, length-take 80 path, ap length same))),
        λ (_, h). get_data_path-take path clean ne ∙ ap done (take-all 80 path h),
      )
      | inr full ↦
          rw (copy_and_send_undefined block path full)
            ((λ e. absurd (clash e)), λ (room, _). absurd (ground arith))
    ]
  where
    clash : ◌≡◌ {A = Outcome Bytes} undefined (done path) → ⊥
    clash e = cc
