-- ===== src/Functions/Tables.antt =====
-- The tables of functions: no address twice, and every entry under its own.
use ocolos_public.Prelude.{
  ℕ, ◌||◌, List, [], ◌∷◌, ◌≡◌, refl, Option, none, some, ◌==◌, Bytes, codes, str_eq, has_key,
  assign, if_both, Holds, Holds-bind, arith, IsMap, All,
}
use ocolos_public.Utils.{split_line}
use ocolos_public.Functions.{
  FuncInfo, Funcs, nm_words, nm_lines, get_func_with_original_addr, bolt_words, bolt_lines,
  run_llvmbolt,
}

has_key-assign :
    (k j : ℕ) (f : FuncInfo) (m : Funcs) → has_key j (assign k f m) ≡ (k == j || has_key j m)
unfolding has_key assign
has_key-assign k j f [] = ground arith
has_key-assign k j f ((i, g) ∷ m) = ground (arith, has_key-assign k j f m)

pub assign-IsMap : (k : ℕ) (f : FuncInfo) (m : Funcs) → IsMap m → IsMap (assign k f m)
unfolding has_key assign
assign-IsMap k f [] h = ground arith
assign-IsMap k f ((j, g) ∷ m) h = ground (arith, assign-IsMap k f m, has_key-assign k j f m)

-- Every entry stands under its own address.
abbrev pub IsKeyed : Funcs → Type 0
IsKeyed m = All (λ e. e.0 ≡ e.1.original_addr) m

assign-IsKeyed :
    (k : ℕ) (f : FuncInfo) (m : Funcs) → k ≡ f.original_addr → IsKeyed m → IsKeyed (assign k f m)
unfolding assign
assign-IsKeyed k f [] e h = (e, tt)
assign-IsKeyed k f ((j, g) ∷ m) e h = ground (arith, assign-IsKeyed k f m)

-- A table of functions: no address twice, and every entry under its own.
pub record IsTable (m : Funcs) : Type 0 where
  pub is_map : IsMap m
  pub is_keyed : IsKeyed m

assign-IsTable :
    (k : ℕ) (f : FuncInfo) (m : Funcs) → k ≡ f.original_addr → IsTable m → IsTable (assign k f m)
assign-IsTable k f m e t = record {
  is_map = assign-IsMap k f m t.is_map;
  is_keyed = assign-IsKeyed k f m e t.is_keyed;
}

empty-IsTable : IsTable []
empty-IsTable = record { is_map = tt; is_keyed = tt }

nm_words-IsTable :
    (fresh : FuncInfo) (m : Funcs) (ws : List Bytes) → IsTable m → IsTable (nm_words fresh m ws)
unfolding nm_words
nm_words-IsTable fresh m (a ∷ s ∷ k ∷ n ∷ ws) t = if_both IsTable _ (assign-IsTable _ _ m refl t) t
nm_words-IsTable fresh m _ t = t

nm_lines-IsTable :
    (fresh : FuncInfo) (m : Funcs) (lines : List Bytes)
    → IsTable m
    → IsTable (nm_lines fresh m lines)
unfolding nm_lines
nm_lines-IsTable fresh m [] t = t
nm_lines-IsTable fresh m (line ∷ lines) t =
    nm_lines-IsTable fresh (nm_words fresh m (split_line line)) lines
      (nm_words-IsTable fresh m (split_line line) t)

bolt_words-IsTable :
    (fresh : FuncInfo) (m : Funcs) (ws : List Bytes)
    → IsTable m
    → Holds IsTable (bolt_words fresh m ws)
unfolding bolt_words
bolt_words-IsTable fresh m (mark ∷ name ∷ o ∷ a ∷ os ∷ ms ∷ more) t =
    if_both (Holds IsTable) (str_eq mark (codes "@@@@")) (assign-IsTable _ _ m refl t) t
bolt_words-IsTable fresh m [] t = t
bolt_words-IsTable fresh m (mark ∷ []) t = t
bolt_words-IsTable fresh m (mark ∷ name ∷ _) t =
    if_both (Holds IsTable) (str_eq mark (codes "@@@@")) tt t

bolt_lines-IsTable :
    (fresh : FuncInfo) (m : Funcs) (lines : List Bytes)
    → IsTable m
    → Holds IsTable (bolt_lines fresh m lines)
unfolding bolt_lines
bolt_lines-IsTable fresh m [] t = t
bolt_lines-IsTable fresh m (line ∷ lines) t =
    Holds-bind IsTable IsTable _ _ (bolt_words-IsTable fresh m (split_line line) t)
      (λ m' t'. bolt_lines-IsTable fresh m' lines t')

-- The tables that get_func_with_original_addr and run_llvmbolt return hold no address twice, and
-- every function stands under its own original address, whatever the two programs print.
pub tables_are_IsTable :
    (fresh : FuncInfo) (nm_output bolt_output : Option (List Bytes))
    → Holds IsTable (get_func_with_original_addr fresh nm_output)
      × Holds IsTable (run_llvmbolt fresh bolt_output)
unfolding get_func_with_original_addr run_llvmbolt
tables_are_IsTable fresh none none = (tt, tt)
tables_are_IsTable fresh none (some bolt) = (tt, bolt_lines-IsTable fresh [] bolt empty-IsTable)
tables_are_IsTable fresh (some nm) none = (nm_lines-IsTable fresh [] nm empty-IsTable, tt)
tables_are_IsTable fresh (some nm) (some bolt) =
    (nm_lines-IsTable fresh [] nm empty-IsTable, bolt_lines-IsTable fresh [] bolt empty-IsTable)
