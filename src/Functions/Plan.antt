-- ===== src/Functions/Plan.antt =====
-- Which functions are copied to which table: the differences of tables, and the ordered table.
use ocolos_public.Prelude.{
  ℕ, ◌<◌, ◌≤◌, false, [], ◌∷◌, ◌≡◌, refl, ◌∙◌, ◌↔◌, Option, none, some, ◌==◌, if◌then◌else◌, lookup,
  has_key, assign, lookup-assign, has_key_iff, if_both, arith, IsMap, All,
}
use ocolos_public.Functions.{
  FuncInfo, Funcs, copy_unless, get_unmoved_func, get_unmoved_func_not_in_call_stack, heap_assign,
  heap_of, long_rank, change_func_to_heap,
}
use ocolos_public.Functions.Tables.{assign-IsMap}

abbrev or_else : Option FuncInfo → Option FuncInfo → Option FuncInfo
or_else (some f) other = some f
or_else none other = other

lookup-copy_unless :
    (taken result funcs : Funcs) (k : ℕ)
    → IsMap funcs
    → lookup k (copy_unless taken result funcs)
      ≡ or_else (if has_key k taken then none else lookup k funcs) (lookup k result)
unfolding copy_unless lookup
lookup-copy_unless taken result [] k h = ground arith
lookup-copy_unless taken result ((j, f) ∷ funcs) k (new, h) = ground (
  arith,
  lookup-copy_unless taken result funcs k h,
  lookup-copy_unless taken (assign j f result) funcs k h,
  lookup-assign j k f result,
  has_key_iff j funcs,
)

copy_unless-IsMap :
    (taken result funcs : Funcs) → IsMap result → IsMap (copy_unless taken result funcs)
unfolding copy_unless
copy_unless-IsMap taken result [] h = h
copy_unless-IsMap taken result ((j, f) ∷ funcs) h =
    copy_unless-IsMap taken (if has_key j taken then result else assign j f result) funcs
      (if_both IsMap (has_key j taken) h (assign-IsMap j f result h))

-- get_unmoved_func keeps exactly the functions that llvm-bolt did not move, with their data.
lookup-get_unmoved_func :
    (func_with_addr bolted_func : Funcs) (k : ℕ)
    → IsMap func_with_addr
    → lookup k (get_unmoved_func func_with_addr bolted_func)
      ≡ (if has_key k bolted_func then none else lookup k func_with_addr)
unfolding get_unmoved_func lookup
lookup-get_unmoved_func funcs bolted k h = ground (arith, lookup-copy_unless bolted [] funcs k h)

lookup-get_unmoved_func_not_in_call_stack :
    (stack unmoved : Funcs) (k : ℕ)
    → IsMap unmoved
    → lookup k (get_unmoved_func_not_in_call_stack stack unmoved)
      ≡ (if has_key k stack then none else lookup k unmoved)
unfolding get_unmoved_func_not_in_call_stack lookup
lookup-get_unmoved_func_not_in_call_stack stack unmoved k h =
    ground (arith, lookup-copy_unless stack [] unmoved k h)

-- The functions whose code is replaced in place are exactly those of the original binary that
-- llvm-bolt did not move and that are on no call stack, with the data that the table holds of them.
pub replaced_functions :
    (func_with_addr bolted_func func_in_call_stack : Funcs) (k : ℕ) (f : FuncInfo)
    → IsMap func_with_addr
    → (lookup k (
          get_unmoved_func_not_in_call_stack func_in_call_stack
            (get_unmoved_func func_with_addr bolted_func))
        ≡ some f)
      ↔ ((lookup k func_with_addr ≡ some f)
          × (has_key k bolted_func ≡ false)
          × (has_key k func_in_call_stack ≡ false))
replaced_functions funcs bolted stack k f h =
    rw
      (
        lookup-get_unmoved_func_not_in_call_stack stack (get_unmoved_func funcs bolted) k
            (unfold get_unmoved_func in copy_unless-IsMap bolted [] funcs tt),
        lookup-get_unmoved_func funcs bolted k h,
      )
      (ground arith)

-- Different longs have different places.
long_rank-injective : (x y : ℕ) → long_rank x ≡ long_rank y → x ≡ y
unfolding long_rank
long_rank-injective x y e = ground arith

-- The table is ordered by address, as longs, and no address stands twice.
abbrev pub IsSorted : Funcs → Type 0
IsSorted [] = Unit
IsSorted ((k, f) ∷ m) = All (λ e. long_rank k < long_rank e.0) m × IsSorted m

pub lookup-heap_assign :
    (k j : ℕ) (f : FuncInfo) (m : Funcs)
    → lookup j (heap_assign k f m) ≡ (if k == j then some f else lookup j m)
unfolding lookup heap_assign
lookup-heap_assign k j f [] = refl
lookup-heap_assign k j f ((i, g) ∷ m) = ground (arith, lookup-heap_assign k j f m)

All-heap_assign :
    (low k : ℕ) (f : FuncInfo) (m : Funcs)
    → long_rank low < long_rank k
    → All (λ e. long_rank low < long_rank e.0) m
    → All (λ e. long_rank low < long_rank e.0) (heap_assign k f m)
unfolding heap_assign
All-heap_assign low k f [] h hs = (h, tt)
All-heap_assign low k f ((j, g) ∷ m) h (p, hs) = ground (arith, All-heap_assign low k f m h hs)

pub All-lower :
    (low k : ℕ) (m : Funcs)
    → long_rank low ≤ long_rank k
    → All (λ e. long_rank k < long_rank e.0) m
    → All (λ e. long_rank low < long_rank e.0) m
All-lower low k [] h hs = tt
All-lower low k ((j, g) ∷ m) h (p, hs) = (omega arith, All-lower low k m h hs)

heap_assign-IsSorted :
    (k : ℕ) (f : FuncInfo) (m : Funcs) → IsSorted m → IsSorted (heap_assign k f m)
unfolding heap_assign
heap_assign-IsSorted k f [] h = ground arith
heap_assign-IsSorted k f ((j, g) ∷ m) (h, hs) = ground (
  arith,
  All-heap_assign j k f m,
  heap_assign-IsSorted k f m hs,
  All-lower k j m,
  long_rank-injective k j,
)

heap_of-IsSorted : (heap funcs : Funcs) → IsSorted heap → IsSorted (heap_of heap funcs)
unfolding heap_of
heap_of-IsSorted heap [] h = h
heap_of-IsSorted heap ((k, f) ∷ funcs) h =
    heap_of-IsSorted (heap_assign k f heap) funcs (heap_assign-IsSorted k f heap h)

lookup-heap_of :
    (heap funcs : Funcs) (k : ℕ)
    → IsMap funcs
    → lookup k (heap_of heap funcs) ≡ or_else (lookup k funcs) (lookup k heap)
unfolding heap_of lookup
lookup-heap_of heap [] k h = refl
lookup-heap_of heap ((j, f) ∷ funcs) k (new, h) = ground (
  arith,
  lookup-heap_of (heap_assign j f heap) funcs k h,
  lookup-heap_assign j k f heap,
  has_key_iff j funcs,
)

-- change_func_to_heap orders the functions by address and keeps each one with its data.
pub change_func_to_heap-IsSorted :
    (funcs : Funcs)
    → IsMap funcs
    → IsSorted (change_func_to_heap funcs)
      × ((k : ℕ) → lookup k (change_func_to_heap funcs) ≡ lookup k funcs)
unfolding change_func_to_heap lookup
change_func_to_heap-IsSorted funcs h =
    (heap_of-IsSorted [] funcs tt, λ k. lookup-heap_of [] funcs k h ∙ or_else-none (lookup k funcs))
  where
    or_else-none : (x : Option FuncInfo) → or_else x none ≡ x
    or_else-none none = refl
    or_else-none (some f) = refl
