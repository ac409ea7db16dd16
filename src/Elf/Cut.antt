-- ===== src/Elf/Cut.antt =====
-- The bytes of a symbol that lies in the file.
use ocolos_public.Prelude.{
  ℕ, zero, suc, ◌+◌, ◌-◌, ◌%◌, ◌^◌, ◌≤◌, ◌<◌, ◌≡◌, refl, ap, ◌∙◌, true, false, [], ◌∷◌, Option,
  none, some, leb, ltb, Bytes, length, take, drop, get_elem?, arith, done,
}
use ocolos_public.Elf.{Symbol, Binary, slice, section_of, file_slice, function_bytes}

-- A symbol in a section of the file, all of whose bytes are in the file, with numbers of 64 bits.
pub record IsPlaced (b : Binary) (s : Symbol) : Type 0 where
  pub index : ℕ
  pub base : ℕ
  pub offset : ℕ
  pub index_is : s.section ≡ some index
  pub section_is : get_elem? b.sections index ≡ some (base, offset)
  pub above : base ≤ s.address
  pub in_range : s.address < 2 ^ 64
  pub inside : offset + (s.address - base) + s.size ≤ length b.file_bytes
  pub small : length b.file_bytes < 2 ^ 64

abbrev start_in : Symbol → Option (ℕ × ℕ) → ℕ
start_in s none = 0
start_in s (some (base, offset)) = offset + (s.address - base)

abbrev start_at : Binary → Symbol → Option ℕ → ℕ
start_at b s none = 0
start_at b s (some index) = start_in s (get_elem? b.sections index)

-- Where the symbol's bytes start in the file, and the bytes.
abbrev pub file_start : Binary → Symbol → ℕ
file_start b s = start_at b s s.section

abbrev pub symbol_code : Binary → Symbol → Bytes
symbol_code b s = take s.size (drop (file_start b s) b.file_bytes)

file_start-IsPlaced :
    (b : Binary) (s : Symbol) (p : IsPlaced b s) → file_start b s ≡ p.offset + (s.address - p.base)
file_start-IsPlaced b s p = ap (start_at b s) p.index_is ∙ ap (start_in s) p.section_is

pub section_of-IsPlaced :
    (b : Binary) (s : Symbol) (p : IsPlaced b s) → section_of b s ≡ done (p.base, p.offset)
unfolding section_of
section_of-IsPlaced b s p = rw (p.index_is, section_of) (rw (p.section_is, section_of) refl)

pub file_slice-IsPlaced :
    (b : Binary) (s : Symbol) (p : IsPlaced b s)
    → file_slice b s p.offset (s.address - p.base) ≡ done (symbol_code b s)
unfolding file_slice slice
file_slice-IsPlaced b s p =
    let start = p.offset + (s.address - p.base) in
    let whole : start % 2 ^ 64 ≡ start = omega (arith, p.inside, p.small) in
    let end : (start + s.size) % 2 ^ 64 ≡ start + s.size = omega (arith, p.inside, p.small) in
    let ordered : leb start (start + s.size) ≡ true = ground arith in
    let within : leb (start + s.size) (length b.file_bytes) ≡ true = ground (arith, p.inside) in
    let size : start + s.size - start ≡ s.size = omega arith in
    rw (whole, end, ordered, within, size, file_start-IsPlaced b s p) refl

pub function_bytes-IsPlaced :
    (b : Binary) (s : Symbol) → IsPlaced b s → function_bytes b s ≡ done (symbol_code b s)
unfolding function_bytes
function_bytes-IsPlaced b s p =
    let up : ltb s.address p.base ≡ false = ground (arith, p.above) in
    rw (section_of-IsPlaced b s p) (rw up (file_slice-IsPlaced b s p))

get_elem?-drop : (n i : ℕ) (xs : Bytes) → get_elem? (drop n xs) i ≡ get_elem? xs (n + i)
get_elem?-drop zero i xs = ap (get_elem? xs) (omega arith)
get_elem?-drop (suc n) i [] = refl
get_elem?-drop (suc n) i (x ∷ xs) =
    let next : suc (n + i) ≡ suc n + i = omega arith in
    get_elem?-drop n i xs ∙ ap (get_elem? (x ∷ xs)) next

get_elem?-take : (n i : ℕ) (xs : Bytes) → i < n → get_elem? (take n xs) i ≡ get_elem? xs i
get_elem?-take zero i xs h = absurd (omega arith)
get_elem?-take (suc n) i [] h = refl
get_elem?-take (suc n) zero (x ∷ xs) h = refl
get_elem?-take (suc n) (suc i) (x ∷ xs) h = get_elem?-take n i xs (omega arith)

pub get_elem?-symbol_code :
    (b : Binary) (s : Symbol) (i : ℕ)
    → i < s.size
    → get_elem? (symbol_code b s) i ≡ get_elem? b.file_bytes (file_start b s + i)
get_elem?-symbol_code b s i h =
    get_elem?-take s.size i (drop (file_start b s) b.file_bytes) h
    ∙ get_elem?-drop (file_start b s) i b.file_bytes
