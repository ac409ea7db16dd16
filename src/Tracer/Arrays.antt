-- ===== src/Tracer/Arrays.antt =====
-- The arrays of addresses that main makes of its tables.
use ocolos_public.Prelude.{
  ◌≡◌, refl, sym, ap, ◌∙◌, inl, inr, ◌↔◌, true, List, [], ◌∷◌, Option, none, some, ◌==◌, Bool-cases,
  lookup, has_key, has_key_iff, IsMap, Bytes, length, All, ◌<◌, ◌^◌, ℕ, zero, suc, Has, arith,
}
use ocolos_public.Records.{get_long}
use ocolos_public.Records.Laws.{get_long-put_long}
use ocolos_public.Tracer.{put_longs, write_func_on_call_stack_into_file}
use ocolos_public.Functions.{FuncInfo, Funcs, get_keys_to_array, get_moved_addr_to_array}

pub get_keys_to_array-Has : (m : Funcs) (k : ℕ) → Has k (get_keys_to_array m) ↔ (has_key k m ≡ true)
unfolding get_keys_to_array has_key
get_keys_to_array-Has [] k = ground arith
get_keys_to_array-Has ((j, f) ∷ m) k = ground (arith, get_keys_to_array-Has m k)

abbrev MovedTo : Funcs → ℕ → Type 0
MovedTo m a = (k : ℕ) × (f : FuncInfo) × (lookup k m ≡ some f) × (a ≡ f.moved_addr)

pub get_moved_addr_to_array-Has :
    (m : Funcs) (a : ℕ) → IsMap m → Has a (get_moved_addr_to_array m) ↔ MovedTo m a
unfolding get_moved_addr_to_array lookup
get_moved_addr_to_array-Has [] a h = ((λ e. absurd e), λ (k, f, e, q). cc)
get_moved_addr_to_array-Has ((j, g) ∷ m) a (new, h) = (
  (λ i. elim i [
    | inl e ↦ (j, g, ground arith, e)
    | inr t ↦ let (k, f, e, q) = (get_moved_addr_to_array-Has m a h).0 t in (k, f, later k f e, q)
  ]),
  λ (k, f, e, q). elim (Bool-cases (j == k)) [
    | inl same ↦ let found : g ≡ f = ground arith in inl (q ∙ ap (λ x. x.moved_addr) (sym found))
    | inr other ↦ inr ((get_moved_addr_to_array-Has m a h).1 (k, f, ground arith, q))
  ],
)
  where
    later : (k : ℕ) (f : FuncInfo) → lookup k m ≡ some f → lookup k ((j, g) ∷ m) ≡ some f
    later k f e = ground (arith, has_key_iff j m)

-- So many longs, one after the other.
pub read_longs : ℕ → Bytes → Option (List ℕ)
read_longs zero file = some []
read_longs (suc n) file = elim (get_long file) [
  | none ↦ none
  | some (a, rest) ↦ elim (read_longs n rest) [ none ↦ none | some ns ↦ some (a ∷ ns) ]
]

read_longs-put_longs :
    (m : Funcs)
    → All (λ e. e.0 < 2 ^ 64) m
    → read_longs (length m) (put_longs (get_keys_to_array m)) ≡ some (get_keys_to_array m)
unfolding read_longs put_longs get_keys_to_array
read_longs-put_longs [] h = refl
read_longs-put_longs ((k, f) ∷ m) (h, hs) =
    rw (get_long-put_long k (put_longs (get_keys_to_array m)) h, read_longs)
      (rw (read_longs-put_longs m hs) refl)

-- The file callstack_func.bin holds, as longs, the number of the functions on the call stacks and
-- then their addresses, in the order of the table, for every table whose addresses and whose size
-- fit in 64 bits.
pub callstack_file_reads :
    (m : Funcs)
    → length m < 2 ^ 64
    → All (λ e. e.0 < 2 ^ 64) m
    → (rest : Bytes) × (get_long (write_func_on_call_stack_into_file m) ≡ some (length m, rest))
      × (read_longs (length m) rest ≡ some (get_keys_to_array m))
unfolding write_func_on_call_stack_into_file
callstack_file_reads m size h =
    (put_longs (get_keys_to_array m), get_long-put_long (length m) _ size, read_longs-put_longs m h)
